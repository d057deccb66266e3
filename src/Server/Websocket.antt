-- ===== src/Server/Websocket.antt =====
-- server/websocket_handler.go: the requests of the web client, with the JSON of each already decoded;
-- server/irc.go: the configuration that a connection gets. The lock of the state makes each access one step,
-- and a client is named by the host of its network.
pub mod Separation
pub mod Isolation
pub mod Search
use dispatch.Base.{
  ℕ, zero, suc, ◌+◌, Bytes, Bool, true, false, not, ◌&&◌, ◌||◌, List, [], ◌∷◌, ◌++◌, Option, none,
  some, codes, ◌==◌, nat_eq, bytes_eq, if◌then◌else◌, ltb, Outcome, ok, panic, ◌>>=◌, is_empty,
  fields, join, lookup, insert, delete,
}
use dispatch.Base.Int.{ℤ, pos, negsuc}
use dispatch.Irc.Client.{
  Client, Config, join_channels, new_client, part_channels, privmsg, topic, write_out,
}
use dispatch.Server.Json.{Response, Task, ChatMessage}
use dispatch.Server.Live.{
  State, History, delete_network, go_task, network_of, on_network, send_json, send_messages,
  send_last_messages, set_flag, set_network,
}
use dispatch.Storage.Bolt.{Network}
use dispatch.Storage.ChannelIndex
use dispatch.Storage.ChannelIndex.{Manager, MapChannelListIndex, search_n}
use dispatch.Storage.Network.{LiveNetwork, irc_config, remove_live_channels, set_network_name}

-- The data of a request, by the names of the handlers; `connect` has the network and the bytes of the
-- client's address.
pub data Request : Type 0 where
  connect : Network → Bytes → Request
  reconnect : (network : Bytes) (skip_verify : Bool) → Request
  join_all : (network : Bytes) (channels : List Bytes) → Request
  part : (network : Bytes) (channels : List Bytes) → Request
  quit : (network : Bytes) → Request
  message : (network to content : Bytes) → Request
  nick : (network fresh : Bytes) → Request
  set_topic : (network channel text : Bytes) → Request
  invite : (network user channel : Bytes) → Request
  kick : (network user channel : Bytes) → Request
  whois : (network user : Bytes) → Request
  away : (network text : Bytes) → Request
  raw : (network text : Bytes) → Request
  fetch_messages : (network channel next : Bytes) → Request
  set_network_name_to : (network name : Bytes) → Request
  channel_search : (network q : Bytes) (start : ℤ) → Request
  open_dm : (network name : Bytes) → Request
  close_dm : (network name : Bytes) → Request

-- The settings of the server that `connectIRC` reads
pub record Settings : Type 0 where
  pub auto_ctcp : Bool
  pub hex_ip : Bool
  pub default_host : Bytes
  pub default_server_password : Bytes
  pub tag : Bytes
  pub commit : Bytes

-- The user's state with its clients, the indexes, and what a client was told to do outside of its state
pub record World : Type 0 where
  pub state : State
  pub clients : List (Bytes × Client)
  pub indexes : Manager
  pub quits : List Bytes
  pub reconnects : List Bytes

-- The time, the user's message log, whether the user has a certificate, `hex.EncodeToString` and
-- `strings.ToLower`
pub record Env : Type 0 where
  pub now : ℕ
  pub history : History
  pub certificate : Bool
  pub hex : Bytes → Bytes
  pub lower : Bytes → Bytes
  pub settings : Settings

-- The configuration in `connectIRC`, without the proxy and the nick handler
unfoldable pub connect_config : Env → Bytes → LiveNetwork → Config
unfolding irc_config
connect_config env ip n =
    let base = irc_config env.settings.tag env.settings.commit n in
    let password =
      if is_empty base.server_password
        && (not (is_empty env.settings.default_server_password)
            && base.host == env.settings.default_host)
      then env.settings.default_server_password
      else base.server_password in
    record base {
      auto_ctcp = env.settings.auto_ctcp;
      has_certificate = base.tls && env.certificate;
      username = if env.settings.hex_ip then env.hex ip else base.username;
      server_password = password;
    }

-- `NewNetwork` of a template
unfoldable pub new_network : Network → LiveNetwork
new_network info = record {
  info = info;
  features = [];
  connected = false;
  error = [];
  channels = [];
}

-- `connectIRC`; the connection itself is made by the client.
unfoldable pub connect_irc : Env → Bytes → LiveNetwork → World → World
unfolding connect_config
connect_irc env ip n w = record w {
  state = set_network n.info.host n w.state;
  clients = insert n.info.host (new_client (connect_config env ip n)) w.clients;
}

abbrev pub on_state : (State → State) → World → World
on_state f w = record w { state = f w.state }

-- `if i, ok := h.state.client(data.Network); ok`
abbrev pub on_client : (Client → Client) → Bytes → World → World
on_client f network w = elim (lookup network w.clients) [
  | none ↦ w
  | some c ↦ record w { clients = insert network (f c) w.clients }
]

unfoldable pub on_connect : Env → Network → Bytes → World → World
unfolding connect_irc new_network
on_connect env info ip w =
    let host = env.lower info.host in
    elim (network_of host w.state) [
      | some n ↦ w
      | none ↦
          on_state (go_task (Task.save_network host))
            (connect_irc env ip (new_network (record info { host = host })) w)
    ]

unfoldable pub on_reconnect : Bytes → World → World
on_reconnect network w = elim (lookup network w.clients) [
  | none ↦ w
  | some c ↦ if c.connected then w else record w { reconnects = w.reconnects ++ network ∷ [] }
]

abbrev pub remove_stored : Bytes → List Bytes → State → State
remove_stored network [] s = s
remove_stored network (ch ∷ chs) s =
    remove_stored network chs (go_task (Task.remove_channel network ch) s)

-- `part`, with its goroutine
unfoldable pub on_part : Bytes → List Bytes → World → World
on_part network channels w =
    on_state
      (λ s. remove_stored network channels (on_network (remove_live_channels channels) network s))
      (on_client (part_channels channels) network w)

-- `deleteNetwork` and `Quit` of the client. `close` of a channel that is closed panics, in a goroutine, which
-- ends the program.
unfoldable pub quit_client : Bytes → Client → World → Outcome World
quit_client network c w =
    if c.quit
    then panic
    else ok (record w {
      state = delete_network network w.state;
      clients = delete network w.clients;
      quits = w.quits ++ network ∷ [];
    })

unfoldable pub on_quit : Bytes → World → Outcome World
unfolding quit_client
on_quit network w = elim (lookup network w.clients) [
  | none ↦ ok (on_state (go_task (Task.remove_network network)) w)
  | some c ↦
      quit_client network c w >>= λ left. ok (on_state (go_task (Task.remove_network network)) left)
]

unfoldable pub on_message : Bytes → Bytes → Bytes → World → World
on_message network to content w = elim (lookup network w.clients) [
  | none ↦ w
  | some c ↦ record w {
    state =
        go_task
          (Task.log_message
            (record { id = []; network = network; sender = c.nick; to = to; content = content }))
          w.state;
    clients = insert network (privmsg to content c) w.clients;
  }
]

-- `isValidNetworkName`: something is left when the spaces at the ends are trimmed.
unfoldable pub is_valid_network_name : Bytes → Bool
is_valid_network_name name = not (is_empty (fields name))

-- The body of `setNetworkName`, for a valid name
unfoldable pub rename_network : Bytes → Bytes → World → World
rename_network network name w = elim (network_of network w.state) [
  | none ↦ w
  | some n ↦
      on_state
        (λ s. go_task (Task.save_network network) (on_network (set_network_name name) network s)) w
]

unfoldable pub on_set_network_name : Bytes → Bytes → World → World
unfolding is_valid_network_name rename_network
on_set_network_name network name w =
    if is_valid_network_name name then rename_network network name w else w

-- How many results a search gives
abbrev pub page_size : ℤ → ℕ
page_size (pos zero) = 10
page_size (pos (suc n)) = 50
page_size (negsuc n) = 10

-- The answer to a search in an index
unfoldable pub answer_search :
    Bytes → Bytes → ℤ → Option MapChannelListIndex → World → Outcome World
answer_search network q start none w = ok w
answer_search network q start (some idx) w = search_n q start (page_size start) idx >>= λ found.
    ok (on_state (send_json (Response.channel_search network q start found)) w)

-- The update that a search asks for
abbrev pub request_list : Bytes → Bool → World → World
request_list network needs_update w = elim (lookup network w.clients) [
  | none ↦ w
  | some c ↦
      if needs_update
      then record w {
        state = set_flag (codes "update_chanlist_" ++ network) true w.state;
        clients = insert network (write_out (codes "LIST") c) w.clients;
      }
      else w
]

unfoldable pub on_channel_search : Env → Bytes → Bytes → ℤ → World → Outcome World
unfolding answer_search
on_channel_search env network q start w =
    let (index, needs_update, indexes) = ChannelIndex.get network env.now w.indexes in
    answer_search network q start index (record w { indexes = indexes }) >>= λ answered.
    ok (request_list network needs_update answered)

-- `dispatchRequest`
unfoldable pub handle_request : Env → Request → World → Outcome World
handle_request env (connect info ip) w = ok (on_connect env info ip w)
handle_request env (reconnect network skip_verify) w = ok (on_reconnect network w)
handle_request env (join_all network channels) w = ok (on_client (join_channels channels) network w)
handle_request env (part network channels) w = ok (on_part network channels w)
handle_request env (quit network) w = on_quit network w
handle_request env (message network to content) w = ok (on_message network to content w)
handle_request env (nick network fresh) w =
    ok (on_client (write_out (codes "NICK " ++ fresh)) network w)
handle_request env (set_topic network channel text) w =
    ok (on_client (topic channel (some text)) network w)
handle_request env (invite network user channel) w =
    ok (on_client (write_out (codes "INVITE " ++ user ++ codes " " ++ channel)) network w)
handle_request env (kick network user channel) w =
    ok (on_client (write_out (codes "KICK " ++ channel ++ codes " " ++ user)) network w)
handle_request env (whois network user) w =
    ok (on_client (write_out (codes "WHOIS " ++ user)) network w)
handle_request env (away network text) w =
    ok (on_client (write_out (codes "AWAY :" ++ text)) network w)
handle_request env (raw network text) w = ok (on_client (write_out text) network w)
handle_request env (fetch_messages network channel next) w =
    ok (on_state (send_messages env.history network channel 200 next) w)
handle_request env (set_network_name_to network name) w = ok (on_set_network_name network name w)
handle_request env (channel_search network q start) w = on_channel_search env network q start w
handle_request env (open_dm network name) w = ok (
    on_state
      (λ s.
        go_task (Task.add_open_dm network name) (send_last_messages env.history network name 50 s))
      w)
handle_request env (close_dm network name) w =
    ok (on_state (go_task (Task.remove_open_dm network name)) w)
