-- ===== src/Server/Handler.antt =====
-- server/irc_handler.go: what the server does with a message that the client has handled. `panic` stands for
-- an index out of range; what is started with `go`, and the calls of the user's store, are tasks.
pub mod Replies
pub mod Dispatch
pub mod Params
pub mod Bursts
pub mod Listing
pub mod Downloads
pub mod Identd
use mathlib.Core.Option
use dispatch.Base.{
  ℕ, zero, suc, Bytes, Bool, true, false, not, ◌&&◌, ◌||◌, List, [], ◌∷◌, ◌++◌, Option, none, some,
  codes, ◌==◌, nat_eq, bytes_eq, if◌then◌else◌, ltb, leb, Outcome, ok, panic, ◌>>=◌, length, drop,
  is_empty, at, contains, has_prefix, split, join, trim_right, trim_suffix, lookup, insert,
}
use dispatch.Base.Int.{atoi}
use dispatch.Irc.Client
use dispatch.Irc.Client.{Client, ConnectionState, is_me, write_out, topic}
use dispatch.Irc.Const.{Command, command_of}
use dispatch.Irc.Ctcp.{Ctcp, to_ctcp}
use dispatch.Irc.Dcc.{DccSend, parse_dcc_send}
use dispatch.Irc.Features.{Features, feature_text}
use dispatch.Irc.Message.{Message, Meta, last_param, is_from_server}
use dispatch.Irc.Mode.{Mode, is_channel}
use dispatch.Server.Json.{Response, Task, ChatMessage, WhoisReply, Motd}
use dispatch.Server.Live.{
  State, History, go_task, on_network, network_of, send_json, send_last_messages, flag, set_flag,
  delete_network, text_of,
}
use dispatch.Storage.ChannelIndex
use dispatch.Storage.ChannelIndex.{ChannelListItem, MapChannelListIndex, Manager, new_index}
use dispatch.Storage.Network.{
  LiveNetwork, add_live_channel, channel_of, new_channel, set_channel_topic, set_features,
  set_joined, set_network_name, set_network_nick, set_status,
}

-- The `ircHandler`, its client, the user's state, and the indexes that all handlers share
pub record Handler : Type 0 where
  pub client : Client
  pub state : State
  pub whois : WhoisReply
  pub motd : Motd
  pub list_buffer : Option MapChannelListIndex
  pub indexes : Manager

-- The id that would be drawn, the time, the user's message log, and whether the identd runs
pub record Env : Type 0 where
  pub id : Bytes
  pub now : ℕ
  pub history : History
  pub identd : Bool

abbrev pub host_of : Handler → Bytes
host_of i = i.client.config.host

abbrev pub on_live : (State → State) → Handler → Handler
on_live f i = record i { state = f i.state }

-- `i.state.sendJSON`
abbrev pub send : Response → Handler → Handler
send res i = on_live (send_json res) i

-- `go`
abbrev pub start : Task → Handler → Handler
start t i = on_live (go_task t) i

-- `if network, ok := i.state.network(i.client.Host()); ok`
abbrev pub on_host : (LiveNetwork → LiveNetwork) → Handler → Handler
on_host f i = on_live (on_network f (host_of i)) i

-- The same, with a task
abbrev pub on_host_start : (LiveNetwork → LiveNetwork) → Task → Handler → Handler
on_host_start f t i = elim (network_of (host_of i) i.state) [
  | none ↦ i
  | some n ↦ start t (on_host f i)
]

-- `stringListMeta`
unfoldable pub string_list_meta : Message → List Bytes
string_list_meta msg = elim msg.meta [ Meta.names l ↦ l | _ ↦ [] ]

-- `nick`
unfoldable pub on_nick : Message → Handler → Handler
unfolding string_list_meta
on_nick msg i =
    let host = host_of i in
    let fresh = last_param msg in
    let sent = send (Response.nick host msg.sender fresh) i in
    let named =
      if is_me i.client fresh
      then on_host_start (set_network_nick fresh) (Task.save_network host) sent
      else sent in
    start (Task.log_event host (codes "nick") (msg.sender ∷ fresh ∷ []) (string_list_meta msg))
      named

-- What `join` does for the user's own nick, when the network is there
abbrev joined_by_us : Env → Bytes → LiveNetwork → Handler → Handler
joined_by_us env channel n i = elim (channel_of channel n) [
  | some ch ↦ on_host (set_joined true channel) i
  | none ↦ start (Task.save_channel (host_of i) channel) (
      on_host (λ n. add_live_channel (record (new_channel channel n) { joined = true }) n)
        (on_live (send_last_messages env.history (host_of i) channel 50) i))
]

unfoldable pub on_join : Env → Message → Handler → Outcome Handler
on_join env msg i =
    let host = host_of i in
    let sent = send (Response.join host msg.sender msg.params) i in
    at msg.params 0 >>= λ channel.
    let asked = record sent { client = topic channel none sent.client } in
    let seen =
      if is_me i.client msg.sender
      then elim (network_of host asked.state) [
        | none ↦ asked
        | some n ↦ joined_by_us env channel n asked
      ]
      else sent in
    ok (start (Task.log_event host (codes "join") (msg.sender ∷ []) (channel ∷ [])) seen)

-- The second of exactly two parameters
abbrev second_of_two : List Bytes → Option Bytes
second_of_two (_ ∷ reason ∷ []) = some reason
second_of_two _ = none

abbrev optional : Option Bytes → List Bytes
optional none = []
optional (some s) = s ∷ []

unfoldable pub on_part : Message → Handler → Outcome Handler
on_part msg i =
    let host = host_of i in
    at msg.params 0 >>= λ channel.
    let reason = second_of_two msg.params in
    let sent = send (Response.part host msg.sender channel (Option.get_or reason [])) i in
    let left =
      if is_me i.client msg.sender then start (Task.remove_channel host channel) sent else sent in
    ok (
      start (Task.log_event host (codes "part") (msg.sender ∷ optional reason) (channel ∷ [])) left)

abbrev kick_reason : List Bytes → Option Bytes
kick_reason [] = none
kick_reason (reason ∷ _) = some reason

unfoldable pub on_kick : Message → Handler → Handler
on_kick msg i = elim msg.params [
  | channel ∷ user ∷ rest ↦
      let host = host_of i in
      let reason = kick_reason rest in
      let sent = send (Response.kick host channel msg.sender user (Option.get_or reason [])) i in
      let logged =
        start
          (Task.log_event host (codes "kick") (user ∷ msg.sender ∷ optional reason) (channel ∷ []))
          sent in
      if is_me i.client user then on_host (set_joined false channel) logged else logged
  | _ ↦ i
]

unfoldable pub on_mode : Message → Handler → Handler
on_mode msg i = elim msg.meta [ Meta.mode_change m ↦ send (Response.mode m) i | _ ↦ i ]

-- What `message` makes of the CTCP part
pub data Chat : Type 0 where
  offer : DccSend → Chat
  ignored : Chat
  shown : Chat

abbrev offer_or_shown : Option DccSend → Chat
offer_or_shown none = Chat.shown
offer_or_shown (some pack) = Chat.offer pack

unfoldable pub chat_of : Option Ctcp → Chat
chat_of none = Chat.shown
chat_of (some ctcp) =
    if ctcp.command == codes "DCC" && has_prefix ctcp.params (codes "SEND")
    then offer_or_shown (parse_dcc_send ctcp)
    else if ctcp.command == codes "ACTION"
    then Chat.shown
    else Chat.ignored

-- The rest of `message`, for its target
unfoldable pub show_chat : Env → Message → Bytes → Handler → Handler
show_chat env msg target i =
    let host = host_of i in
    let chat : ChatMessage = record {
      id = env.id;
      network = host;
      sender = msg.sender;
      to = [];
      content = last_param msg;
    } in
    let server = is_from_server msg in
    if is_me i.client target
    then (let sent = send (Response.pm chat) i in
        let opened = if server then sent else start (Task.add_open_dm host msg.sender) sent in
        if not (msg.sender == codes "*") && not server
        then start (Task.log_message (record chat { to = msg.sender })) opened
        else opened)
    else (let sent = send (Response.message (record chat { to = target })) i in
        if not (target == codes "*") && not server
        then start (Task.log_message (record chat { to = target })) sent
        else sent)

unfoldable pub on_message : Env → Message → Handler → Outcome Handler
unfolding chat_of
on_message env msg i = elim (chat_of (to_ctcp msg)) [
  | Chat.offer pack ↦ ok (start (Task.receive_dcc pack msg) i)
  | Chat.ignored ↦ ok i
  | Chat.shown ↦ at msg.params 0 >>= λ target. ok (show_chat env msg target i)
]

unfoldable pub on_quit : Message → Handler → Handler
unfolding string_list_meta
on_quit msg i =
    start
      (Task.log_event (host_of i) (codes "quit") (msg.sender ∷ last_param msg ∷ [])
        (string_list_meta msg))
      (send (Response.quit (host_of i) msg.sender (last_param msg)) i)

-- What `channelIndexes.Get` of a welcome starts
abbrev refresh_list : Env → Handler → Handler
refresh_list env i =
    let (index, needs_update, indexes) = ChannelIndex.get (host_of i) env.now i.indexes in
    let held = record i { indexes = indexes } in
    if needs_update
    then start (Task.timeout_update (host_of i))
        (record held { list_buffer = some new_index; client = write_out (codes "LIST") i.client })
    else held

unfoldable pub on_welcome : Env → Bytes → Handler → Handler
on_welcome env nick i =
    let host = host_of i in
    let listed = refresh_list env (send (Response.nick host [] nick) i) in
    let closed = if env.identd then start Task.identd_remove listed else listed in
    start (Task.set_stored_nick nick host) (on_host (set_network_nick nick) closed)

-- `msg.Params[1:]`
abbrev tail_of : List Bytes → Outcome (List Bytes)
tail_of [] = panic
tail_of (_ ∷ rest) = ok rest

unfoldable pub on_info : Env → Message → Handler → Outcome Handler
on_info env msg i =
    let welcomed =
      if msg.command == codes "001"
      then (at msg.params 0 >>= λ nick. ok (on_welcome env nick i))
      else ok i in
    welcomed >>= λ j. tail_of msg.params >>= λ rest. ok (
      send
        (Response.pm (record {
          id = [];
          network = host_of i;
          sender = msg.sender;
          to = [];
          content = join rest (codes " ");
        }))
        j)

unfoldable pub on_features : Message → Handler → Handler
on_features msg i =
    let host = host_of i in
    let features = i.client.features in
    let sent = send (Response.features host features) i in
    let held = on_host (set_features features) sent in
    let name = feature_text (codes "NETWORK") features in
    if is_empty name
    then held
    else on_host_start (set_network_name name) (Task.save_network host) held
