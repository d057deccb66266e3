-- ===== src/Irc/Message/RoundTrip.antt =====
-- `ParseMessage` reads back every printed line.
use dispatch.Base.{
  ℕ, Bytes, [], ◌∷◌, ◌++◌, ◌≡◌, ◌≢◌, refl, sym, ap, ◌∙◌, arith, some, List, All, ok, ◌>>=◌, IsWord,
  join, codes, map, split,
}
use dispatch.Irc.Message.{skip_blanks, add_tags, strip_tags, parse_untagged, parse_message}
use dispatch.Irc.Message.Printer
use dispatch.Irc.Message.Printer.{
  Line, Source, anonymous, from_server, from_user, NotAt, IsLine, print, meaning, source_text,
  command_text, tags_text, tag_text, trailing_text,
}
use dispatch.Irc.Message.Tags.{strip_tags_plain, strip_tags_at}
use dispatch.Irc.Message.Stages.{parse_command_text, strip_source_text}
use dispatch.Irc.Message.TagList.{joined_tags-Lacks, add_tags-split-join}

-- The byte that a command starts with.
command_text-starts :
    (b : ℕ) (w : Bytes) (ws : List Bytes) (rest : Bytes)
    → w ≢ []
    → NotAt b w
    → (join (w ∷ ws) (codes " ") ++ rest ≢ []) × NotAt b (join (w ∷ ws) (codes " ") ++ rest)
unfolding join
command_text-starts b [] ws rest ne h = absurd (ne refl)
command_text-starts b (c ∷ w) [] rest ne h = (λ e. cc, h)
command_text-starts b (c ∷ w) (v ∷ ws) rest ne h = (λ e. cc, h)

skip_blanks_none : (s : Bytes) → s ≢ [] → NotAt b' ' s → skip_blanks s ≡ ok s
unfolding skip_blanks
skip_blanks_none [] ne h = absurd (ne refl)
skip_blanks_none (c ∷ s) ne h = ground arith

strip_tags_none_at : (s : Bytes) → s ≢ [] → NotAt b'@' s → strip_tags s ≡ ok (some ([], s))
strip_tags_none_at [] ne h = absurd (ne refl)
strip_tags_none_at (c ∷ s) ne h = strip_tags_plain c s h

-- In front of a source comes a colon, or the command.
source_text-starts :
    (b : ℕ) (s : Source) (rest : Bytes)
    → b ≢ b':'
    → rest ≢ []
    → NotAt b rest
    → (source_text s rest ≢ []) × NotAt b (source_text s rest)
source_text-starts b anonymous rest n ne h = (ne, h)
source_text-starts b (from_server name) rest n ne h = (λ e. cc, λ e. n (sym e))
source_text-starts b (from_user nick ident host) rest n ne h = (λ e. cc, λ e. n (sym e))

word-NotAt-blank : (w : Bytes) → IsWord w → NotAt b' ' w
word-NotAt-blank [] h = tt
word-NotAt-blank (c ∷ w) h = omega arith

strip_tags_text :
    (ts : List (Bytes × Bytes)) (rest : Bytes)
    → All (λ t. Printer.IsKey t.0) ts
    → Printer.Distinct ts
    → rest ≢ []
    → NotAt b'@' rest
    → NotAt b' ' rest
    → strip_tags (tags_text ts rest) ≡ ok (some (ts, rest))
strip_tags_text [] rest h d ne at blank = strip_tags_none_at rest ne at
strip_tags_text (t ∷ ts) rest h d ne at blank =
    strip_tags_at _ rest (joined_tags-Lacks t ts h)
    ∙ ap
        (λ o. o >>= λ r.
          ok (some (add_tags [] (split (join (map tag_text (t ∷ ts)) (codes ";")) b';'), r)))
        (skip_blanks_none rest ne blank)
    ∙ ap (λ l. ok (some (l, rest))) (add_tags-split-join t ts h d)

-- Every well-formed line: tags with distinct keys and any values, a server or user source or none,
-- words of printable ASCII, and any trailing bytes. Printed and parsed, it gives exactly its tags,
-- sender, ident, host, command and parameters.
pub parse_message-print : (l : Line) → IsLine l → parse_message (print l) ≡ ok (some (meaning l))
unfolding parse_message parse_untagged
parse_message-print l h =
    let colon =
      command_text-starts b':' l.command l.middle (trailing_text l.trailing) h.words.0.1
        h.no_colon.0 in
    let at =
      command_text-starts b'@' l.command l.middle (trailing_text l.trailing) h.words.0.1 h.no_at in
    let blank =
      command_text-starts b' ' l.command l.middle (trailing_text l.trailing) h.words.0.1
        (word-NotAt-blank l.command h.words.0) in
    let tagged =
      strip_tags_text l.tags (source_text l.source (command_text l)) h.keys h.distinct
        (source_text-starts b'@' l.source (command_text l) (omega arith) at.0 at.1).0
        (source_text-starts b'@' l.source (command_text l) (omega arith) at.0 at.1).1
        (source_text-starts b' ' l.source (command_text l) (omega arith) blank.0 blank.1).1 in
    ground (
      arith,
      tagged,
      strip_source_text l.source (command_text l) h.source colon.0 colon.1,
      parse_command_text l.command l.middle l.trailing h.words h.no_colon,
    )
