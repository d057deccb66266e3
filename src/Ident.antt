-- ===== src/Ident.antt =====
-- pkg/ident/server.go: the entries of the ident server and the answer to a query. The addresses are split
-- by `net.SplitHostPort` of the library: an address is given as the host and the port that it gives, with
-- `none` for nil and for an error. The lock makes each operation one step.
pub mod Laws
use dispatch.Base.{
  Bytes, Bool, List, [], ◌∷◌, ◌++◌, Option, none, some, codes, ◌==◌, nat_eq, bytes_eq,
  if◌then◌else◌, lookup, insert, delete, ltb, length, trim_suffix,
}

pub record Address : Type 0 where
  pub host : Bytes
  pub port : Bytes

-- `entry`
pub record Entry : Type 0 where
  pub remote_host : Bytes
  pub ident : Bytes

abbrev pub Server : Type 0
Server = List (Bytes × Entry)

-- `localPort+","+remotePort`
abbrev pub key_of : Address → Address → Bytes
key_of own remote = own.port ++ (b',' ∷ remote.port)

-- `Add`
unfoldable pub add : Option Address → Option Address → Bytes → Server → Server
add none remote ident s = s
add (some own) none ident s = s
add (some own) (some remote) ident s =
    insert (key_of own remote) (record { remote_host = remote.host; ident = ident }) s

-- `Remove`
unfoldable pub remove : Option Address → Option Address → Server → Server
remove none remote s = s
remove (some own) none s = s
remove (some own) (some remote) s = delete (key_of own remote) s

-- `strings.ReplaceAll(query, " ", "")`
unfoldable pub without_spaces : Bytes → Bytes
without_spaces [] = []
without_spaces (c ∷ s) = let rest = without_spaces s in if c == b' ' then rest else c ∷ rest

abbrev pub reply : Bytes → Bytes → Bytes
reply query ident = query ++ codes " : USERID : Dispatch : " ++ ident ++ (0x0D ∷ 0x0A ∷ [])

-- `scan.Scan()` and `scan.Text()` for the bytes before the end of the line, or before the end of what is
-- sent: they and the end of the line must fit in the scanner's buffer of 32 bytes. `none` is no line. An end
-- of the stream at once is taken for an empty line, which is no key of the map either.
unfoldable pub scan_line : Bytes → Option Bytes
scan_line line = if ltb (length line) 32 then some (trim_suffix line (0x0D ∷ [])) else none

-- What `handle` writes for a query from an address
unfoldable pub reply_to : Option Address → Bytes → Server → Option Bytes
unfolding without_spaces
reply_to remote query s = elim (lookup (without_spaces query) s) [
  | none ↦ none
  | some e ↦ elim remote [
    | none ↦ none
    | some r ↦ if r.host == e.remote_host then some (reply query e.ident) else none
  ]
]

-- The answer of `handle` to a line from an address; `none` when it closes the connection without one
unfoldable pub answer : Option Address → Bytes → Server → Option Bytes
unfolding scan_line reply_to
answer remote line s = elim (scan_line line) [ none ↦ none | some query ↦ reply_to remote query s ]
