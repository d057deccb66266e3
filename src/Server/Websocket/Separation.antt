-- ===== src/Server/Websocket/Separation.antt =====
-- What the operations on one host of server/websocket_handler.go leave alone: the clients and the networks of
-- all other hosts.
use dispatch.Base.{
  Bytes, Bool, true, false, List, [], ◌∷◌, Option, none, some, nat_eq, bytes_eq, bytes_beq_iff,
  lookup, insert, delete, lookup-insert, lookup-delete, ◌≡◌, ◌≢◌, refl, ◌∙◌, arith, Bool-cases, inl,
  inr,
}
use dispatch.Irc.Client.{Client, part_channels}
use dispatch.Server.Json.{Task}
use dispatch.Server.Live.{
  insert_network, erase_network, State, delete_network, go_task, network_of, on_network,
  reset_if_empty, set_flag, set_network,
}
use dispatch.Base.{Outcome, ok, panic}
use dispatch.Server.Websocket.{
  quit_client, Env, World, connect_irc, new_network, on_client, on_connect, on_message, on_part,
  on_quit, on_reconnect, remove_stored, rename_network, request_list,
}
use dispatch.Storage.Bolt.{Network}
use dispatch.Storage.Network.{LiveNetwork, remove_live_channels, set_network_name}

-- The client and the live network of a host are the same in two worlds.
abbrev pub Same : Bytes → World → World → Type 0
Same host w v =
    (lookup host v.clients ≡ lookup host w.clients)
    × (network_of host v.state ≡ network_of host w.state)

-- The same after an operation that does not end the program
abbrev pub Keeps : Bytes → World → Outcome World → Type 0
Keeps host w (ok v) = Same host w v
Keeps host w panic = Unit

pub Same-refl : (other : Bytes) (w : World) → Same other w w
Same-refl other w = (refl, refl)

lookup-insert_other :
    {V : Type 0} (k other : Bytes) (v : V) (m : List (Bytes × V))
    → other ≢ k
    → lookup other (insert k v m) ≡ lookup other m
lookup-insert_other k other v m ne =
    ground (arith, lookup-insert k other v m, bytes_beq_iff k other, ne)

pub on_client-Same :
    (f : Client → Client) (network other : Bytes) (w : World)
    → other ≢ network
    → Same other w (on_client f network w)
on_client-Same f network other w ne = go (lookup network w.clients) refl
  where
    go :
        (found : Option Client)
        → lookup network w.clients ≡ found
        → Same other w (on_client f network w)
    go none e = rw (e, on_client) (Same-refl other w)
    go (some c) e = rw (e, on_client) (lookup-insert_other network other (f c) w.clients ne, refl)

on_network-other :
    (f : LiveNetwork → LiveNetwork) (network other : Bytes) (s : State)
    → other ≢ network
    → network_of other (on_network f network s) ≡ network_of other s
unfolding network_of
on_network-other f network other s ne = go (lookup network s.networks) refl
  where
    go :
        (found : Option LiveNetwork)
        → lookup network s.networks ≡ found
        → lookup other (on_network f network s).networks ≡ lookup other s.networks
    go none e = rw (e, on_network) refl
    go (some n) e = rw (e, on_network) (lookup-insert_other network other (f n) s.networks ne)

pub on_connect-Same :
    (env : Env) (info : Network) (ip other : Bytes) (w : World)
    → other ≢ env.lower info.host
    → Same other w (on_connect env info ip w)
unfolding on_connect connect_irc new_network set_network insert_network network_of
on_connect-Same env info ip other w ne = go (network_of (env.lower info.host) w.state) refl
  where
    go :
        (found : Option LiveNetwork)
        → network_of (env.lower info.host) w.state ≡ found
        → Same other w (on_connect env info ip w)
    go (some n) e = rw (e, on_connect) (Same-refl other w)
    go none e =
        rw (e, on_connect)
          (
            lookup-insert_other (env.lower info.host) other _ w.clients ne,
            lookup-insert_other (env.lower info.host) other _ w.state.networks ne,
          )

pub on_reconnect-Same : (network other : Bytes) (w : World) → Same other w (on_reconnect network w)
unfolding on_reconnect
on_reconnect-Same network other w = go (lookup network w.clients) refl
  where
    go :
        (found : Option Client)
        → lookup network w.clients ≡ found
        → Same other w (on_reconnect network w)
    go none e = rw (e, on_reconnect) (Same-refl other w)
    go (some c) e = elim (Bool-cases c.connected) [
      | inl b ↦ rw (e, on_reconnect, b) (Same-refl other w)
      | inr b ↦ rw (e, on_reconnect, b) (Same-refl other w)
    ]

remove_stored-networks :
    (network other : Bytes) (chs : List Bytes) (s : State)
    → network_of other (remove_stored network chs s) ≡ network_of other s
unfolding network_of
remove_stored-networks network other [] s = refl
remove_stored-networks network other (ch ∷ chs) s =
    remove_stored-networks network other chs (go_task (Task.remove_channel network ch) s)

pub on_part-Same :
    (network other : Bytes) (chs : List Bytes) (w : World)
    → other ≢ network
    → Same other w (on_part network chs w)
unfolding on_part
on_part-Same network other chs w ne =
    let (clients, networks) = on_client-Same (part_channels chs) network other w ne in
    let told = on_client (part_channels chs) network w in
    (
      clients,
      remove_stored-networks network other chs
            (on_network (remove_live_channels chs) network told.state)
          ∙ on_network-other (remove_live_channels chs) network other told.state ne
          ∙ networks,
    )

lookup-delete_other :
    {V : Type 0} (k other : Bytes) (m : List (Bytes × V))
    → other ≢ k
    → lookup other (delete k m) ≡ lookup other m
lookup-delete_other k other m ne =
    ground (arith, lookup-delete k other m, bytes_beq_iff k other, ne)

pub Keeps-quit :
    (network other : Bytes) (w : World) → other ≢ network → Keeps other w (on_quit network w)
unfolding on_quit quit_client delete_network erase_network reset_if_empty network_of
Keeps-quit network other w ne = go (lookup network w.clients) refl
  where
    go :
        (found : Option Client)
        → lookup network w.clients ≡ found
        → Keeps other w (on_quit network w)
    go none e = rw (e, on_quit) (refl, refl)
    go (some c) e = elim (Bool-cases c.quit) [
      | inl shut ↦ rw (e, on_quit, shut) tt
      | inr ajar ↦
          rw (e, on_quit, ajar)
            (
              lookup-delete_other network other w.clients ne,
              lookup-delete_other network other w.state.networks ne,
            )
    ]

pub on_message-Same :
    (network to content other : Bytes) (w : World)
    → other ≢ network
    → Same other w (on_message network to content w)
unfolding on_message network_of
on_message-Same network to content other w ne = go (lookup network w.clients) refl
  where
    go :
        (found : Option Client)
        → lookup network w.clients ≡ found
        → Same other w (on_message network to content w)
    go none e = rw (e, on_message) (refl, refl)
    go (some c) e = rw (e, on_message) (lookup-insert_other network other _ w.clients ne, refl)

pub rename_network-Same :
    (network name other : Bytes) (w : World)
    → other ≢ network
    → Same other w (rename_network network name w)
unfolding rename_network network_of lookup
rename_network-Same network name other w ne = go (network_of network w.state) refl
  where
    go :
        (found : Option LiveNetwork)
        → network_of network w.state ≡ found
        → Same other w (rename_network network name w)
    go none e = rw (e, rename_network) (Same-refl other w)
    go (some n) e =
        rw (e, rename_network)
          (refl, on_network-other (set_network_name name) network other w.state ne)

pub request_list-Same :
    (network other : Bytes) (needs_update : Bool) (w : World)
    → other ≢ network
    → Same other w (request_list network needs_update w)
unfolding network_of set_flag
request_list-Same network other needs_update w ne = go (lookup network w.clients) refl needs_update
  where
    go :
        (found : Option Client)
        → lookup network w.clients ≡ found
        → (asks : Bool) → Same other w (request_list network asks w)
    go none e asks = rw (e, request_list) (refl, refl)
    go (some c) e true =
        rw (e, request_list) (lookup-insert_other network other _ w.clients ne, refl)
    go (some c) e false = rw (e, request_list) (refl, refl)
