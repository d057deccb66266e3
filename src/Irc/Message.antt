-- ===== src/Irc/Message.antt =====
-- pkg/irc/message.go: `Message`, `ParseMessage` and what it calls. A nil `Tags` map and an empty one
-- are not told apart.
pub mod Escape
pub mod Tags
pub mod Panics
pub mod Printer
mod Stages
mod TagList
pub mod RoundTrip
use Prim.Native.Nat.{◌<◌}
use mathlib.Core.Option
use dispatch.Base.{
  ℕ, zero, suc, ◌+◌, Bytes, Bool, true, false, ◌||◌, ◌&&◌, Option, none, some, List, [], ◌∷◌, ◌++◌,
  codes, ◌==◌, nat_eq, bytes_eq, bytes_beq, if◌then◌else◌, Outcome, ok, panic, ◌>>=◌, length, take,
  drop, is_empty, has_prefix, index, contains_text, split, split_n2, fields, insert, ltb,
}
use dispatch.Irc.Mode.{Mode}

-- `msg.meta`, set by the client for its handlers
pub data Meta : Type 0 where
  no_meta : Meta
  names : List Bytes → Meta
  mode_change : Mode → Meta

pub record Message : Type 0 where
  pub tags : List (Bytes × Bytes)
  pub sender : Bytes
  pub ident : Bytes
  pub host : Bytes
  pub command : Bytes
  pub params : List Bytes
  pub meta : Meta

unfoldable pub last_of : List Bytes → Bytes
last_of [] = []
last_of (p ∷ []) = p
last_of (p ∷ q ∷ ps) = last_of (q ∷ ps)

-- `LastParam`
unfoldable pub last_param : Message → Bytes
unfolding last_of
last_param m = last_of m.params

unfoldable pub is_from_server : Message → Bool
unfolding contains_text bytes_beq
is_from_server m = is_empty m.sender || contains_text m.sender (codes ".")

-- `splitParam`
unfoldable pub split_param : Bytes → Bytes × Bytes
split_param param = let (key, val) = split_n2 param b'=' in (key, Option.get_or val [])

-- `unescapeTag`: the replacer reads from the left, and leaves a backslash that starts no pair.
unfoldable pub unescape_tag : Bytes → Bytes
unescape_tag [] = []
unescape_tag (b ∷ []) = b ∷ []
unescape_tag (b ∷ c ∷ s) =
    let behind = unescape_tag s in
    let next = unescape_tag (c ∷ s) in
    if b == b'\\' && c == b':'
    then b';' ∷ behind
    else if b == b'\\' && c == b's'
    then b' ' ∷ behind
    else if b == b'\\' && c == b'\\'
    then b'\\' ∷ behind
    else if b == b'\\' && c == b'r'
    then 0x0D ∷ behind
    else if b == b'\\' && c == b'n'
    then 0x0A ∷ behind
    else b ∷ next

-- The body of the loop over the tags.
unfoldable pub add_tag : List (Bytes × Bytes) → Bytes → List (Bytes × Bytes)
unfolding split_param
add_tag m tag =
    let (key, val) = split_param tag in
    if is_empty key
    then m
    else if is_empty val
    then insert key [] m
    else insert key (unescape_tag val) m

unfoldable pub add_tags : List (Bytes × Bytes) → List Bytes → List (Bytes × Bytes)
unfolding add_tag
add_tags m [] = m
add_tags m (tag ∷ tags) = add_tags (add_tag m tag) tags

-- `for line[next+1] == ' ' { next++ }`, from the text behind the first blank.
unfoldable pub skip_blanks : Bytes → Outcome Bytes
skip_blanks [] = panic
skip_blanks (c ∷ s) = elim (c == b' ') [ true ↦ skip_blanks s | false ↦ ok (c ∷ s) ]

abbrev pub Tagged : Type 0
Tagged = List (Bytes × Bytes) × Bytes

-- The tags and the rest of the line; `none` is the return of nil.
unfoldable pub strip_tags : Bytes → Outcome (Option Tagged)
unfolding has_prefix
strip_tags line =
    if has_prefix line (codes "@")
    then elim (index line (codes " ")) [
      | none ↦ ok none
      | some next ↦
          let tags = add_tags [] (split (drop 1 (take next line)) b';') in
          skip_blanks (drop (next + 1) line) >>= λ rest. ok (some (tags, rest))
    ]
    else ok (some ([], line))

pub record Prefix : Type 0 where
  pub sender : Bytes
  pub ident : Bytes
  pub host : Bytes

-- `strings.Index(s, sep)` when it is positive, as in `i > 0`.
abbrev pub positive : Option ℕ → Option ℕ
positive none = none
positive (some zero) = none
positive (some (suc i)) = some (suc i)

unfoldable pub parse_prefix : Bytes → Prefix
parse_prefix prefix = elim (positive (index prefix (codes "!"))) [
  | some i ↦
      let user = drop (i + 1) prefix in
      elim (positive (index user (codes "@"))) [
        | some j ↦ record { sender = take i prefix; ident = take j user; host = drop (j + 1) user }
        | none ↦ record { sender = take i prefix; ident = user; host = [] }
      ]
  | none ↦ elim (positive (index prefix (codes "@"))) [
    | some i ↦ record { sender = take i prefix; ident = []; host = drop (i + 1) prefix }
    | none ↦ record { sender = prefix; ident = []; host = [] }
  ]
]

unfoldable pub strip_prefix : Bytes → Option (Prefix × Bytes)
unfolding has_prefix
strip_prefix line =
    if has_prefix line (codes ":")
    then elim (index line (codes " ")) [
      | none ↦ none
      | some next ↦ some (parse_prefix (drop 1 (take next line)), drop (next + 1) line)
    ]
    else some (record { sender = []; ident = []; host = [] }, line)

-- The command, its parameters, and the trailing one behind " :".
abbrev pub words_and : List Bytes → List Bytes → Option (Bytes × List Bytes)
words_and [] trailing = none
words_and (command ∷ params) trailing = some (command, params ++ trailing)

unfoldable pub parse_command : Bytes → Option (Bytes × List Bytes)
parse_command line = elim (index line (codes " :")) [
  | none ↦ words_and (fields line) []
  | some i ↦ words_and (fields (take i line)) (drop (i + 2) line ∷ [])
]

unfoldable pub parse_untagged : Tagged → Option Message
parse_untagged (tags, line) = elim (strip_prefix line) [
  | none ↦ none
  | some (prefix, rest) ↦ elim (parse_command rest) [
    | none ↦ none
    | some (command, params) ↦ some (record {
      tags = tags;
      sender = prefix.sender;
      ident = prefix.ident;
      host = prefix.host;
      command = command;
      params = params;
      meta = no_meta;
    })
  ]
]

abbrev pub parse_tagged : Option Tagged → Option Message
parse_tagged none = none
parse_tagged (some tagged) = parse_untagged tagged

-- `ParseMessage`: `ok none` is the return of nil.
unfoldable pub parse_message : Bytes → Outcome (Option Message)
parse_message line = strip_tags line >>= λ tagged. ok (parse_tagged tagged)
