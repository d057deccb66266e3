-- ===== src/Irc/Message/Escape.antt =====
-- Tag values: what a server escapes, `unescapeTag` gives back.
use dispatch.Base.{
  ℕ, Bytes, [], ◌∷◌, ◌++◌, ◌≡◌, ◌≢◌, refl, ap, ◌∙◌, arith, ◌==◌, nat_eq, if◌then◌else◌,
}
use dispatch.Irc.Message.{unescape_tag}

-- The escaping of the message tags specification, one byte at a time.
abbrev pub escape_byte : ℕ → Bytes
escape_byte c =
    if c == b';'
    then b'\\' ∷ b':' ∷ []
    else if c == b' '
    then b'\\' ∷ b's' ∷ []
    else if c == b'\\'
    then b'\\' ∷ b'\\' ∷ []
    else if c == 0x0D
    then b'\\' ∷ b'r' ∷ []
    else if c == 0x0A
    then b'\\' ∷ b'n' ∷ []
    else c ∷ []

abbrev pub escape_tag : Bytes → Bytes
escape_tag [] = []
escape_tag (c ∷ s) = escape_byte c ++ escape_tag s

unescape_plain : (c : ℕ) (s : Bytes) → c ≢ b'\\' → unescape_tag (c ∷ s) ≡ c ∷ unescape_tag s
unfolding unescape_tag
unescape_plain c [] h = refl
unescape_plain c (d ∷ s) h = ground arith

-- The five pairs.
unescape_pair :
    (d : ℕ) (s : Bytes)
    → unescape_tag (b'\\' ∷ d ∷ s) ≡ (
        if d == b':'
        then b';' ∷ unescape_tag s
        else if d == b's'
        then b' ' ∷ unescape_tag s
        else if d == b'\\'
        then b'\\' ∷ unescape_tag s
        else if d == b'r'
        then 0x0D ∷ unescape_tag s
        else if d == b'n'
        then 0x0A ∷ unescape_tag s
        else b'\\' ∷ unescape_tag (d ∷ s))
unfolding unescape_tag
unescape_pair d s = refl

unescape-escape_byte : (c : ℕ) (s : Bytes) → unescape_tag (escape_byte c ++ s) ≡ c ∷ unescape_tag s
unescape-escape_byte c s = ground (
  arith,
  unescape_plain c s,
  unescape_pair b':' s,
  unescape_pair b's' s,
  unescape_pair b'\\' s,
  unescape_pair b'r' s,
  unescape_pair b'n' s,
)

-- Unescaping an escaped tag value gives the value back, whatever bytes it holds.
pub unescape_tag-escape_tag : (v : Bytes) → unescape_tag (escape_tag v) ≡ v
unescape_tag-escape_tag [] = unfold unescape_tag in refl
unescape_tag-escape_tag (c ∷ v) =
    unescape-escape_byte c (escape_tag v) ∙ ap (◌∷◌ c) (unescape_tag-escape_tag v)
