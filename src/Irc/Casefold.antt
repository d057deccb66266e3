-- ===== src/Irc/Casefold.antt =====
-- pkg/irc/case.go: case mappings, byte by byte in `toLower` and rune by rune in `equalFold`.
pub mod Laws
use dispatch.Base.{
  ℕ, zero, suc, ◌+◌, ◌-◌, Bytes, Bool, true, false, not, ◌&&◌, ◌||◌, List, [], ◌∷◌, codes, ◌==◌,
  nat_eq, bytes_eq, leb, ltb, if◌then◌else◌, Rune, rune_self, decode_rune, runes, runes_from,
  bytes_beq,
}

-- 'A' <= c && c <= end
abbrev pub is_upper : ℕ → ℕ → Bool
is_upper end c = leb b'A' c && leb c end

abbrev pub fold_byte : ℕ → ℕ → ℕ
fold_byte end c = if is_upper end c then c + 32 else c

-- The first loop of `toLower`.
has_upper : ℕ → Bytes → Bool
has_upper end [] = false
has_upper end (c ∷ s) = is_upper end c || has_upper end s

-- The second loop: `skip` counts the bytes of the current rune that are still to copy.
to_lower_from : ℕ → ℕ → Bytes → Bytes
to_lower_from end skip [] = []
to_lower_from end zero (c ∷ s) =
    (if leb rune_self c then c else fold_byte end c)
    ∷ to_lower_from end (if leb rune_self c then (decode_rune c s).size - 1 else 0) s
to_lower_from end (suc skip) (c ∷ s) = c ∷ to_lower_from end skip s

unfoldable pub to_lower : Bytes → ℕ → Bytes
unfolding has_upper to_lower_from
to_lower s end = if not (has_upper end s) then s else to_lower_from end 0 s

-- One round of the loop of `equalFold`, on the runes that it takes from both strings.
abbrev pub runes_match : ℕ → ℕ → ℕ → Bool
runes_match end r1 r2 =
    r1 == r2
    || (let lo = if ltb r2 r1 then r2 else r1 in
        let hi = if ltb r2 r1 then r1 else r2 in is_upper end lo && hi == lo + 32)

equal_runes : ℕ → List ℕ → List ℕ → Bool
equal_runes end [] [] = true
equal_runes end (r ∷ rs) (q ∷ qs) = runes_match end r q && equal_runes end rs qs
equal_runes end _ _ = false

-- `equalFold`; when one string has ended, the two are equal if both have.
unfoldable pub equal_fold_to : Bytes → Bytes → ℕ → Bool
unfolding equal_runes
equal_fold_to s1 s2 end = equal_runes end (runes s1) (runes s2)

abbrev pub ascii : Bytes
ascii = codes "ascii"

abbrev pub rfc1459 : Bytes
rfc1459 = codes "rfc1459"

abbrev pub rfc1459_strict : Bytes
rfc1459_strict = codes "strict-rfc1459"

-- `Casefold`
unfoldable pub casefold : Bytes → Bytes → Bytes
casefold mapping s =
    if mapping == ascii
    then to_lower s b'Z'
    else if mapping == rfc1459
    then to_lower s b'^'
    else if mapping == rfc1459_strict
    then to_lower s b']'
    else s

-- `EqualFold`
unfoldable pub equal_fold : Bytes → Bytes → Bytes → Bool
equal_fold mapping s1 s2 =
    if mapping == ascii
    then equal_fold_to s1 s2 b'Z'
    else if mapping == rfc1459
    then equal_fold_to s1 s2 b'^'
    else if mapping == rfc1459_strict
    then equal_fold_to s1 s2 b']'
    else s1 == s2
