-- ===== src/Irc/Message/Tags.antt =====
-- The first stage of `ParseMessage` on each form of a line.
use dispatch.Base.{
  ℕ, Bytes, [], ◌∷◌, ◌++◌, ◌≡◌, ◌≢◌, refl, arith, none, some, ok, ◌>>=◌, split, index_byte,
  index_byte_none, Lacks, take-append, drop-append_past,
}
use dispatch.Irc.Message.{strip_tags, skip_blanks, add_tags}

-- A line with no '@' in front has no tags.
pub strip_tags_plain : (c : ℕ) (t : Bytes) → c ≢ b'@' → strip_tags (c ∷ t) ≡ ok (some ([], c ∷ t))
unfolding strip_tags
strip_tags_plain c t h = ground arith

-- Tags end at the first blank.
pub strip_tags_at :
    (p rest : Bytes)
    → Lacks b' ' p
    → strip_tags (b'@' ∷ (p ++ b' ' ∷ rest))
      ≡ (skip_blanks rest >>= λ r. ok (some (add_tags [] (split p b';'), r)))
unfolding strip_tags
strip_tags_at p rest h =
    rw (index_byte b' ' (b'@' ∷ p) rest (omega arith, h))
      (rw (drop-append_past (b'@' ∷ p) (b' ' ∷ rest) 1, take-append p (b' ' ∷ rest)))

pub strip_tags-none : (p : Bytes) → Lacks b' ' p → strip_tags (b'@' ∷ p) ≡ ok none
unfolding strip_tags
strip_tags-none p h = rw (index_byte_none b' ' (b'@' ∷ p) (omega arith, h)) refl
