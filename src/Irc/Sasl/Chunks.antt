-- ===== src/Irc/Sasl/Chunks.antt =====
-- The lines of a response: the loop ends on its own, and what it writes.
use Prim.Native.Nat.{◌<◌}
use dispatch.Base.{
  ltb, get_or, ◌*◌, ℕ, zero, suc, ◌+◌, ◌/◌, ◌≤◌, Bytes, true, false, [], ◌∷◌, codes, if◌then◌else◌,
  is_empty, length, drop, length-drop, ◌≡◌, ◌∙◌, refl, sym, ap, arith, leb, Bool-cases, inl, inr,
}
use dispatch.Irc.Sasl.{auth_chunks, auth_chunks_from}

abbrev pub last_chunk : Bytes → Bytes
last_chunk auth = if is_empty auth then codes "+" else auth

-- More rounds than 400-byte pieces change nothing.
rounds_enough :
    (n k : ℕ) (auth : Bytes)
    → length auth ≤ n
    → length auth ≤ k
    → auth_chunks_from n auth ≡ auth_chunks_from k auth
unfolding auth_chunks_from
rounds_enough zero zero auth h g = refl
rounds_enough zero (suc k) auth h g = ground arith
rounds_enough (suc n) zero auth h g = ground arith
rounds_enough (suc n) (suc k) auth h g = elim (Bool-cases (leb 400 (length auth))) [
  | inl long ↦ rw long (
      ap (◌∷◌ auth) (
        rounds_enough n k (drop 400 auth) (omega (arith, length-drop 400 auth, h))
          (omega (arith, length-drop 400 auth, g))))
  | inr short ↦ rw short refl
]

-- The loop, with no bound on its rounds: a response of 400 bytes or more is written, all of it, and the
-- loop goes on without its first 400 bytes; a shorter one is the last line, '+' if nothing is left.
auth_chunks_loop :
    (auth : Bytes)
    → auth_chunks auth
      ≡ (if leb 400 (length auth) then auth ∷ auth_chunks (drop 400 auth) else last_chunk auth ∷ [])
unfolding auth_chunks auth_chunks_from
auth_chunks_loop [] = refl
auth_chunks_loop (x ∷ s) =
    rw
      (rounds_enough (length s) (length (drop 399 s)) (drop 399 s)
        (omega (arith, length-drop 399 s)) (omega arith))
      refl

leb-true : (a b : ℕ) → leb a b ≡ true → a ≤ b
leb-true a b h = ground (arith, h)

leb-false : (a b : ℕ) → leb a b ≡ false → b < a
leb-false a b h = ground (arith, h)

length-auth_chunks_from :
    (n : ℕ) (auth : Bytes)
    → length auth ≤ n
    → length (auth_chunks_from n auth) ≡ length auth / 400 + 1
unfolding auth_chunks_from
length-auth_chunks_from zero auth h = ground arith
length-auth_chunks_from (suc n) auth h = elim (Bool-cases (leb 400 (length auth))) [
  | inl long ↦ rw long (
      omega (
        arith,
        length-auth_chunks_from n (drop 400 auth) (omega (arith, length-drop 400 auth, h)),
        length-drop 400 auth,
        leb-true 400 (length auth) long,
      ))
  | inr short ↦ rw short (omega (arith, leb-false 400 (length auth) short))
]

-- One line for every full 400 bytes of the response, and one more.
length-auth_chunks : (auth : Bytes) → length (auth_chunks auth) ≡ length auth / 400 + 1
length-auth_chunks auth =
    unfold auth_chunks in length-auth_chunks_from (length auth) auth (omega arith)

-- The line at a place: the response without the pieces of 400 bytes that come before it, all the rest of them
-- included, and '+' at the end when the response is made of such pieces.
abbrev pub line_at : ℕ → Bytes → Bytes
line_at k auth =
    if ltb k (length auth / 400) then drop (400 * k) auth else last_chunk (drop (400 * k) auth)

drop_nil : (n : ℕ) → drop {A = ℕ} n [] ≡ []
drop_nil zero = refl
drop_nil (suc n) = refl

drop-drop : (n m : ℕ) (s : Bytes) → drop m (drop n s) ≡ drop (n + m) s
drop-drop zero m s = ap (λ i. drop i s) (omega arith)
drop-drop (suc n) m [] = drop_nil m ∙ sym (drop_nil (suc n + m))
drop-drop (suc n) m (x ∷ s) =
    let shift : suc n + m ≡ suc (n + m) = omega arith in
    drop-drop n m s ∙ sym (ap (λ i. drop i (x ∷ s)) shift)

ltb-suc : (k n m : ℕ) → suc n ≡ m → ltb k n ≡ ltb (suc k) m
ltb-suc k n m h = ground (arith, h)

line_at-suc :
    (k : ℕ) (auth : Bytes) → 400 ≤ length auth → line_at k (drop 400 auth) ≡ line_at (suc k) auth
line_at-suc k auth h =
    let place : ltb k (length (drop 400 auth) / 400) ≡ ltb (suc k) (length auth / 400) =
      ltb-suc k (length (drop 400 auth) / 400) (length auth / 400)
        (omega (arith, length-drop 400 auth, h)) in
    let rest : drop (400 * k) (drop 400 auth) ≡ drop (400 * suc k) auth =
      drop-drop 400 (400 * k) auth ∙ ap (λ n. drop n auth) (omega arith) in
    rw (place, rest) refl

auth_chunks_long :
    (auth : Bytes)
    → leb 400 (length auth) ≡ true
    → auth_chunks auth ≡ auth ∷ auth_chunks (drop 400 auth)
auth_chunks_long auth long = auth_chunks_loop auth ∙ rw long refl

auth_chunks_short :
    (auth : Bytes) → leb 400 (length auth) ≡ false → auth_chunks auth ≡ last_chunk auth ∷ []
auth_chunks_short auth short = auth_chunks_loop auth ∙ rw short refl

line-auth_chunks :
    (k : ℕ) (auth : Bytes) → k ≤ length auth / 400 → get_or (auth_chunks auth) k [] ≡ line_at k auth
line-auth_chunks zero auth h = elim (Bool-cases (leb 400 (length auth))) [
  | inl long ↦ ap (λ lines. get_or lines 0 []) (auth_chunks_long auth long) ∙ ground (arith, long)
  | inr short ↦
      ap (λ lines. get_or lines 0 []) (auth_chunks_short auth short) ∙ ground (arith, short)
]
line-auth_chunks (suc k) auth h =
    let enough : 400 ≤ length auth = omega (arith, h) in
    ap (λ lines. get_or lines (suc k) []) (auth_chunks_long auth (ground (arith, enough)))
    ∙ line-auth_chunks k (drop 400 auth) (omega (arith, h, length-drop 400 auth))
    ∙ line_at-suc k auth enough

-- Sending a response of any length ends: there is one line for every full 400 bytes of it and one more, and
-- the line at each place is the response without all the 400-byte pieces before it, so the lines are not
-- these pieces: each but the last repeats all that follows. The last is '+' if nothing is left.
pub auth_chunks_lem :
    (auth : Bytes) (k : ℕ)
    → k ≤ length auth / 400
    → (length (auth_chunks auth) ≡ length auth / 400 + 1)
      × (get_or (auth_chunks auth) k [] ≡ line_at k auth)
auth_chunks_lem auth k h = (length-auth_chunks auth, line-auth_chunks k auth h)
