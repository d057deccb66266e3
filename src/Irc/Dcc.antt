-- ===== src/Irc/Dcc.antt =====
-- pkg/irc/dcc.go: `ParseDCCSend`, `intToIP`, and the loop of `Download` without its progress reports. The
-- connection and the file are seen as what each turn of the loop reads, and whether its writes succeed.
pub mod Laws
use Prim.Native.Nat.{◌<◌}
use dispatch.Base.{
  ℕ, zero, suc, ◌+◌, ◌-◌, ◌*◌, ◌/◌, ◌%◌, ◌^◌, Bytes, Bool, true, false, ◌||◌, List, [], ◌∷◌, ◌++◌,
  Option, none, some, codes, ◌==◌, nat_eq, bytes_eq, if◌then◌else◌, ltb, length, is_empty, split,
  trim_right,
}
use dispatch.Base.Int.{ℤ, pos, negsuc, atoi?, parse_uint}
use dispatch.Irc.Ctcp.{Ctcp}
use dispatch.Irc.Message.{last_of}
use dispatch.Storage.Bolt.{be_bytes}

pub record DccSend : Type 0 where
  pub file : Bytes
  pub ip : Bytes
  pub port : Bytes
  pub length : ℕ

-- `path.Base`
unfoldable pub base : Bytes → Bytes
base p =
    if is_empty p
    then codes "."
    else (let name = last_of (split (trim_right p b'/') b'/') in
        if is_empty name then codes "/" else name)

-- `n >> s & 255` of a 64-bit int, for a shift by `s` with `size` as 2 ^ s
abbrev pub byte_at : ℕ → ℤ → ℕ
byte_at size (pos n) = (n / size) % 256
byte_at size (negsuc n) = 255 - (n / size) % 256

-- `%d` of a number below 1000
unfoldable pub show_byte : ℕ → Bytes
show_byte n =
    if ltb n 10
    then (b'0' + n) ∷ []
    else if ltb n 100
    then (b'0' + n / 10) ∷ (b'0' + n % 10) ∷ []
    else (b'0' + n / 100) ∷ (b'0' + (n / 10) % 10) ∷ (b'0' + n % 10) ∷ []

-- `intToIP`
unfoldable pub int_to_ip : ℤ → Bytes
unfolding show_byte
int_to_ip n =
    show_byte (byte_at 16777216 n)
    ++ (b'.'
        ∷ (show_byte (byte_at 65536 n)
            ++ (b'.' ∷ (show_byte (byte_at 256 n) ++ (b'.' ∷ show_byte (byte_at 1 n))))))

-- The name of the file without its directories
unfoldable pub file_name : Bytes → Bytes
unfolding base
file_name s = let name = base s in if name == codes "/" || name == codes "." then [] else name

-- The parts of the parameters that count: the second to the fifth of five or more
unfoldable pub send_of : List Bytes → Option DccSend
unfolding file_name int_to_ip
send_of (_ ∷ file ∷ ip ∷ port ∷ size ∷ _) = elim (atoi? ip) [
  | none ↦ none
  | some n ↦ elim (parse_uint size) [
    | none ↦ none
    | some k ↦ some (record { file = file_name file; ip = int_to_ip n; port = port; length = k })
  ]
]
send_of _ = none

-- `ParseDCCSend`
unfoldable pub parse_dcc_send : Ctcp → Option DccSend
unfolding send_of
parse_dcc_send ctcp = send_of (split ctcp.params b' ')

-- `uint64Bytes`
unfoldable pub uint64_bytes : ℕ → Bytes
uint64_bytes i = be_bytes 8 i

-- What one turn reads: bytes, with whether the file and then the connection take what is written; the end
-- of the stream without bytes; another error. Bytes that come with the end of the stream are bytes.
pub data Turn : Type 0 where
  received : Bytes → Bool → Bool → Turn
  ended : Turn
  failed : Turn

-- What has been done: the bytes in the file, the acknowledgements, and whether `Download` returned nil
pub record Download : Type 0 where
  pub contents : Bytes
  pub acks : List Bytes
  pub complete : Bool

-- The loop of `Download` over the turns; when they are used up, the next read is still to come.
unfoldable pub download : ℕ → Bytes → List Bytes → List Turn → Option Download
unfolding uint64_bytes
download total contents acks [] = none
download total contents acks (ended ∷ turns) =
    some (record { contents = contents; acks = acks; complete = true })
download total contents acks (failed ∷ turns) =
    some (record { contents = contents; acks = acks; complete = false })
download total contents acks (received bytes false sent ∷ turns) =
    some (record { contents = contents; acks = acks; complete = false })
download total contents acks (received bytes true false ∷ turns) =
    some (record { contents = contents ++ bytes; acks = acks; complete = false })
download total contents acks (received bytes true true ∷ turns) =
    let now = (total + length bytes) % 2 ^ 64 in
    download now (contents ++ bytes) (acks ++ uint64_bytes now ∷ []) turns
