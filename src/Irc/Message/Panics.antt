-- ===== src/Irc/Message/Panics.antt =====
-- Where `ParseMessage` indexes past the end of its line, and why `recv` never lets it.
use mathlib.Core.Path.{subst}
use mathlib.Core.Logic.{◌↔◌}
use dispatch.Base.{
  Bytes, [], ◌∷◌, ◌++◌, ◌≡◌, ◌≢◌, refl, sym, ap, arith, Option, Outcome, ok, panic, Returns, Lacks,
  All, inl, inr, first-cases, EndsWith, trim, trim_left, trim_right-not-EndsWith, Bool-cases, ◌==◌,
  nat_eq,
}
use dispatch.Irc.Message.{Message, skip_blanks, strip_tags, parse_message}
use dispatch.Irc.Message.Tags.{strip_tags_plain, strip_tags_at, strip_tags-none}

abbrev pub AllBlank : Bytes → Type 0
AllBlank = All (λ c. c ≡ b' ')

-- The lines that carry tags and nothing but blanks behind them.
pub record OnlyTags (line : Bytes) : Type 0 where
  pub tags : Bytes
  pub blanks : Bytes
  pub splits : line ≡ b'@' ∷ (tags ++ b' ' ∷ blanks)
  pub first : Lacks b' ' tags
  pub blank : AllBlank blanks

skip_blanks-panic : (s : Bytes) → skip_blanks s ≡ panic → AllBlank s
unfolding skip_blanks
skip_blanks-panic [] h = tt
skip_blanks-panic (c ∷ s) h = ground (arith, skip_blanks-panic s)

panic-skip_blanks : (s : Bytes) → AllBlank s → skip_blanks s ≡ panic
unfolding skip_blanks
panic-skip_blanks [] h = refl
panic-skip_blanks (c ∷ s) h = ground (arith, panic-skip_blanks s h.1)

parse-OnlyTags : (line : Bytes) → parse_message line ≡ panic → OnlyTags line
unfolding parse_message
parse-OnlyTags [] h = unfold strip_tags in cc
parse-OnlyTags (c ∷ t) h = elim (Bool-cases (c == b'@')) [
  | inr plain ↦ absurd (ground (arith, strip_tags_plain c t (ground arith)))
  | inl tagged ↦
      let at_sign : c ≡ b'@' = ground arith in
      elim (first-cases b' ' t) [
        | inl lacks ↦ absurd (ground (arith, strip_tags-none t lacks))
        | inr f ↦ record {
          tags = f.before;
          blanks = f.behind;
          splits = rw at_sign (ap (◌∷◌ b'@') f.splits);
          first = f.lacks;
          blank =
              skip_blanks-panic f.behind
                (ground (arith, f.splits, strip_tags_at f.before f.behind f.lacks));
        }
      ]
]

-- `ParseMessage` panics on exactly the lines that have tags, a blank, and only blanks behind it.
pub parse_message-panic_iff : (line : Bytes) → (parse_message line ≡ panic) ↔ OnlyTags line
parse_message-panic_iff line = (
  parse-OnlyTags line,
  λ o. rw o.splits (
      unfold parse_message in
      rw (strip_tags_at o.tags o.blanks o.first, panic-skip_blanks o.blanks o.blank)),
)

EndsWith-append : (a s : Bytes) → AllBlank s → EndsWith b' ' (a ++ b' ' ∷ s)
EndsWith-append [] [] h = refl
EndsWith-append [] (c ∷ s) h =
    subst (λ b. EndsWith b' ' (b ∷ s)) (sym h.0) (EndsWith-append [] s h.1)
EndsWith-append (c ∷ []) s h = EndsWith-append [] s h
EndsWith-append (c ∷ d ∷ a) s h = EndsWith-append (d ∷ a) s h

Returns-of_ne : (o : Outcome (Option Message)) → o ≢ panic → Returns o
Returns-of_ne (ok m) h = tt
Returns-of_ne panic h = h refl

-- `recv` trims the line before it parses it, and on a trimmed line `ParseMessage` returns.
pub parse_message-trim : (line : Bytes) → Returns (parse_message (trim line b' '))
unfolding trim
parse_message-trim line = Returns-of_ne _ λ p.
    let o = (parse_message-panic_iff (trim line b' ')).0 p in
    trim_right-not-EndsWith b' ' (trim_left line b' ')
      (rw o.splits (EndsWith-append (b'@' ∷ o.tags) o.blanks o.blank))
