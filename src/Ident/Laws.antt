-- ===== src/Ident/Laws.antt =====
-- Whom the ident server answers, and with what.
use dispatch.Base.{
  Bytes, List, [], ◌∷◌, Option, none, some, ◌==◌, nat_eq, bytes_eq, if◌then◌else◌, lookup,
  lookup-insert, lookup-delete, ◌≡◌, refl, ap, ◌∙◌, Bool, true, false, ltb, length, trim_suffix,
}
use dispatch.Ident.{
  Address, Entry, Server, add, answer, key_of, remove, reply, reply_to, scan_line, without_spaces,
}

-- A step of the server: an entry is added or removed.
pub data Change : Type 0 where
  added : Address → Address → Bytes → Change
  removed : Address → Address → Change

-- The server after some changes, the latest first
abbrev pub after : List Change → Server
after [] = []
after (added own remote ident ∷ before) = add (some own) (some remote) ident (after before)
after (removed own remote ∷ before) = remove (some own) (some remote) (after before)

-- The entry of a pair of ports: the latest change for it decides.
abbrev pub current : Bytes → List Change → Option Entry
current key [] = none
current key (added own remote ident ∷ before) =
    let others = current key before in
    if key_of own remote == key
    then some (record { remote_host = remote.host; ident = ident })
    else others
current key (removed own remote ∷ before) =
    let others = current key before in if key_of own remote == key then none else others

lookup-after :
    (key : Bytes) (changes : List Change) → lookup key (after changes) ≡ current key changes
unfolding add remove
lookup-after key [] = unfold lookup in refl
lookup-after key (added own remote ident ∷ before) =
    lookup-insert (key_of own remote) key _ (after before)
    ∙ ap
        (λ l.
          if key_of own remote == key
          then some (record { remote_host = remote.host; ident = ident })
          else l)
        (lookup-after key before)
lookup-after key (removed own remote ∷ before) =
    lookup-delete (key_of own remote) key (after before)
    ∙ ap (λ l. if key_of own remote == key then none else l) (lookup-after key before)

-- The answer that an entry permits
abbrev pub answer_of : Address → Bytes → Option Entry → Option Bytes
answer_of remote query none = none
answer_of remote query (some e) =
    if remote.host == e.remote_host then some (reply query e.ident) else none

pub reply_to_lem :
    (remote : Address) (query : Bytes) (s : Server)
    → reply_to (some remote) query s ≡ answer_of remote query (lookup (without_spaces query) s)
unfolding reply_to
reply_to_lem remote query s = go (lookup (without_spaces query) s) refl
  where
    go :
        (found : Option Entry)
        → lookup (without_spaces query) s ≡ found
        → reply_to (some remote) query s ≡ answer_of remote query (lookup (without_spaces query) s)
    go none e = rw (e, reply_to) refl
    go (some entry) e = rw (e, reply_to) refl

-- The answer to a line that a client sends, by the entry for the pair of ports in it
abbrev pub line_answer : Address → Bytes → (Bytes → Option Entry) → Option Bytes
line_answer remote line entry =
    if ltb (length line) 32
    then (let query = trim_suffix line (0x0D ∷ []) in
        answer_of remote query (entry (without_spaces query)))
    else none

-- After any additions and removals, a line is answered exactly when it has fewer than 32 bytes and the latest
-- change for its pair of ports, spaces and a carriage return at the end left out, is an addition for the host
-- that asks, and then with the ident of that addition.
pub answer-after :
    (changes : List Change) (remote : Address) (line : Bytes)
    → answer (some remote) line (after changes)
      ≡ line_answer remote line (λ key. current key changes)
unfolding answer scan_line
answer-after changes remote line = go (ltb (length line) 32)
  where
    query : Bytes
    query = trim_suffix line (0x0D ∷ [])

    go :
        (fits : Bool)
        → elim (if fits then some query else none) [
          | none ↦ none
          | some q ↦ reply_to (some remote) q (after changes)
        ]
          ≡ (if fits then answer_of remote query (current (without_spaces query) changes) else none)
    go false = refl
    go true =
        reply_to_lem remote query (after changes)
        ∙ ap (λ found. answer_of remote query found) (lookup-after (without_spaces query) changes)
