-- ===== src/Irc/Dcc/Laws.antt =====
-- The address of an offer, and what a download writes.
use Prim.Native.Nat.{◌<◌}
use dispatch.Base.{
  ℕ, ◌+◌, ◌-◌, ◌*◌, ◌/◌, ◌%◌, ◌^◌, Bytes, true, false, List, [], ◌∷◌, ◌++◌, Option, none, some,
  nat_eq, length, split, ◌≡◌, refl, sym, ap, ◌∙◌, arith, Lacks, All, map, append-nil, append_assoc,
  join, split-join,
}
use dispatch.Base.Int.{ℤ, pos, negsuc, digits, digits_from}
use dispatch.Irc.Dcc.{
  byte_at, show_byte, int_to_ip, Turn, Download, download, received, ended, failed, uint64_bytes,
}
use dispatch.Storage.Bolt.{be_bytes}

-- The value of four numbers in base 256
abbrev pub address_of : List (Option ℕ) → Option ℕ
address_of (some a ∷ some b ∷ some c ∷ some d ∷ []) = some (a * 16777216 + b * 65536 + c * 256 + d)
address_of _ = none

-- The low 32 bits of an int
abbrev pub low_bits : ℤ → ℕ
low_bits (pos n) = n % 4294967296
low_bits (negsuc n) = 4294967295 - n % 4294967296

byte_at_lt : (size : ℕ) (n : ℤ) → byte_at size n < 256
byte_at_lt size (pos n) = omega arith
byte_at_lt size (negsuc n) = omega arith

digits_one : (a : ℕ) → a < 10 → digits ((b'0' + a) ∷ []) ≡ some a
unfolding digits digits_from
digits_one a ha = ground (arith, ha)

digits_two : (a b : ℕ) → a < 10 → b < 10 → digits ((b'0' + a) ∷ (b'0' + b) ∷ []) ≡ some (a * 10 + b)
unfolding digits digits_from
digits_two a b ha hb = ground (arith, ha, hb)

digits_three :
    (a b c : ℕ)
    → a < 10
    → b < 10
    → c < 10
    → digits ((b'0' + a) ∷ (b'0' + b) ∷ (b'0' + c) ∷ []) ≡ some (a * 100 + b * 10 + c)
unfolding digits digits_from
digits_three a b c ha hb hc = ground (arith, ha, hb, hc)

digits-show_byte : (n : ℕ) → n < 256 → digits (show_byte n) ≡ some n
unfolding show_byte
digits-show_byte n h = ground (
  arith,
  h,
  digits_one n,
  digits_two (n / 10) (n % 10),
  digits_three (n / 100) ((n / 10) % 10) (n % 10),
)

Lacks-show_byte : (n : ℕ) → n < 256 → Lacks b'.' (show_byte n)
unfolding show_byte
Lacks-show_byte n h = ground (arith, h)

parts_of :
    (a b c d : Bytes)
    → All (Lacks b'.') (a ∷ b ∷ c ∷ d ∷ [])
    → split (a ++ (b'.' ∷ (b ++ (b'.' ∷ (c ++ (b'.' ∷ d)))))) b'.' ≡ a ∷ b ∷ c ∷ d ∷ []
unfolding join
parts_of a b c d h = split-join b'.' a (b ∷ c ∷ d ∷ []) h

bytes_value :
    (n : ℤ)
    → byte_at 16777216 n * 16777216 + byte_at 65536 n * 65536 + byte_at 256 n * 256 + byte_at 1 n
      ≡ low_bits n
bytes_value (pos n) = omega arith
bytes_value (negsuc n) = omega arith

-- The IP of an offer is four decimal numbers between dots, and their value in base 256 is the low 32 bits
-- of the number that was sent.
pub split-int_to_ip :
    (n : ℤ) → address_of (map digits (split (int_to_ip n) b'.')) ≡ some (low_bits n)
unfolding int_to_ip
split-int_to_ip n =
    let a = byte_at 16777216 n in
    let b = byte_at 65536 n in
    let c = byte_at 256 n in
    let d = byte_at 1 n in
    let ha = byte_at_lt 16777216 n in
    let hb = byte_at_lt 65536 n in
    let hc = byte_at_lt 256 n in
    let hd = byte_at_lt 1 n in
    ap (λ parts. address_of (map digits parts))
      (parts_of (show_byte a) (show_byte b) (show_byte c) (show_byte d) (
        Lacks-show_byte a ha,
        (Lacks-show_byte b hb, (Lacks-show_byte c hc, (Lacks-show_byte d hd, tt))),
      ))
    ∙ rw
        (digits-show_byte a ha, digits-show_byte b hb, digits-show_byte c hc, digits-show_byte d hd)
        (ap (λ v. some v) (bytes_value n))

-- A turn that reads bytes and writes them and their acknowledgement
abbrev pub got : Bytes → Turn
got bytes = received bytes true true

-- The number that bytes give in base 256, the first byte first
abbrev pub big_endian : ℕ → Bytes → ℕ
big_endian value [] = value
big_endian value (b ∷ bs) = big_endian (value * 256 + b) bs

-- Each read is acknowledged with 8 bytes, the number of bytes so far in big-endian order.
abbrev pub Acknowledged : ℕ → List Bytes → List Bytes → Type 0
Acknowledged total [] [] = Unit
Acknowledged total (bytes ∷ chunks) (ack ∷ acks) =
    (length ack ≡ 8)
    × (big_endian 0 ack ≡ (total + length bytes) % 2 ^ 64)
    × Acknowledged ((total + length bytes) % 2 ^ 64) chunks acks
Acknowledged total _ _ = ⊥

length-uint64_bytes : (i : ℕ) → length (uint64_bytes i) ≡ 8
unfolding uint64_bytes be_bytes
length-uint64_bytes i = refl

big_endian-uint64_bytes : (i : ℕ) → big_endian 0 (uint64_bytes (i % 2 ^ 64)) ≡ i % 2 ^ 64
unfolding uint64_bytes be_bytes
big_endian-uint64_bytes i = omega arith

abbrev pub concat : List Bytes → Bytes
concat [] = []
concat (s ∷ ss) = s ++ concat ss

-- What a complete download has read and written, from a total, a content and acknowledgements on
abbrev pub Complete : ℕ → Bytes → List Bytes → List Turn → Download → Type 0
Complete total contents acks turns d =
    (chunks : List Bytes) × (rest : List Turn) × (sent : List Bytes) × (turns
      ≡ map got chunks ++ ended ∷ rest)
    × (d.contents ≡ contents ++ concat chunks)
    × (d.acks ≡ acks ++ sent)
    × Acknowledged total chunks sent

download-from :
    (total : ℕ) (contents : Bytes) (acks : List Bytes) (turns : List Turn) (d : Download)
    → download total contents acks turns ≡ some d
    → d.complete ≡ true
    → Complete total contents acks turns d
unfolding download
download-from total contents acks [] d e h = let bad : ⊥ = ground (arith, e) in absurd bad
download-from total contents acks (ended ∷ turns) d e h =
    let hc : d.contents ≡ contents = ground (arith, e) in
    let ha : d.acks ≡ acks = ground (arith, e) in
    ([], turns, [], refl, hc ∙ sym (append-nil contents), ha ∙ sym (append-nil acks), tt)
download-from total contents acks (failed ∷ turns) d e h =
    let bad : ⊥ = ground (arith, e, h) in absurd bad
download-from total contents acks (received bytes false sent ∷ turns) d e h =
    let bad : ⊥ = ground (arith, e, h) in absurd bad
download-from total contents acks (received bytes true false ∷ turns) d e h =
    let bad : ⊥ = ground (arith, e, h) in absurd bad
download-from total contents acks (received bytes true true ∷ turns) d e h =
    let now = (total + length bytes) % 2 ^ 64 in
    let (chunks, rest, written, he, hc, ha, hw) =
      download-from now (contents ++ bytes) (acks ++ uint64_bytes now ∷ []) turns d e h in
    (
      bytes ∷ chunks,
      rest,
      uint64_bytes now ∷ written,
      ap (◌∷◌ (got bytes)) he,
      hc ∙ append_assoc contents bytes (concat chunks),
      ha ∙ append_assoc acks (uint64_bytes now ∷ []) written,
      (length-uint64_bytes now, big_endian-uint64_bytes (total + length bytes), hw),
    )

-- When `Download` has returned without an error, it has read some chunks up to the end of the stream, the
-- file holds them one behind the other, and each was acknowledged with 8 bytes: the number of bytes so far,
-- modulo 2 ^ 64, in big-endian order.
pub download-complete :
    (turns : List Turn) (d : Download)
    → download 0 [] [] turns ≡ some d
    → d.complete ≡ true
    → Complete 0 [] [] turns d
download-complete turns d e h = download-from 0 [] [] turns d e h
