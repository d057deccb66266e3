-- ===== src/Server/Handler/Identd.antt =====
-- server/irc_handler.go: the case of `run` that tells the ident server of a change of the connection, when the
-- ident server is there.
use dispatch.Base.{
  Bytes, Bool, true, false, Option, none, some, ◌==◌, nat_eq, bytes_eq, insert, lookup-insert,
  lookup-delete, bytes_beq_iff, arith, ◌≡◌, refl, ◌∙◌,
}
use dispatch.Ident.{Address, Server, add, key_of, remove, reply, reply_to, without_spaces}
use dispatch.Ident.Laws.{reply_to_lem}

-- The addresses that `run` keeps between the changes, and the ident server
pub record Idents : Type 0 where
  pub local_addr : Option Address
  pub remote_addr : Option Address
  pub server : Server

-- For the addresses of the client's connection, its username, and whether it is connected
unfoldable pub run_identd : (own remote : Option Address) → Bytes → Bool → Idents → Idents
run_identd own remote username true s = record {
  local_addr = own;
  remote_addr = remote;
  server = add own remote username s.server;
}
run_identd own remote username false s = record s {
  server = remove s.local_addr s.remote_addr s.server;
}

same : (k : Bytes) → (k == k) ≡ true
same k = ground (arith, bytes_beq_iff k k)

-- While a connection stands, a query for its ports from the other side of it is answered with the username.
reply_to-run_identd :
    (own remote : Address) (username query : Bytes) (s : Idents)
    → without_spaces query ≡ key_of own remote
    → reply_to (some remote) query (run_identd (some own) (some remote) username true s).server
      ≡ some (reply query username)
unfolding run_identd add
reply_to-run_identd own remote username query s e =
    reply_to_lem remote query (run_identd (some own) (some remote) username true s).server
    ∙ rw
        (
          e,
          lookup-insert (key_of own remote) (key_of own remote)
              (record { remote_host = remote.host; ident = username }) s.server,
          same (key_of own remote),
          same remote.host,
        )
        refl

-- After the ident server was told of a connection and then that it is lost, with whatever addresses the client
-- has by then: no query for its ports is answered, whoever asks.
pub reply_to-run_identd_lost :
    (own remote asker : Address) (later elsewhere : Option Address) (username query : Bytes)
    (s : Idents)
    → without_spaces query ≡ key_of own remote
    → reply_to
        (some asker)
        query
        (run_identd later elsewhere username false
          (run_identd (some own) (some remote) username true s)).server
      ≡ none
unfolding run_identd add remove
reply_to-run_identd_lost own remote asker later elsewhere username query s e =
    reply_to_lem asker query _
    ∙ rw
        (
          e,
          lookup-delete (key_of own remote) (key_of own remote) (
              insert (key_of own remote) (record { remote_host = remote.host; ident = username })
                s.server),
          same (key_of own remote),
        )
        refl
