-- ===== src/Server/Json.antt =====
-- server/json.go: what the server sends to the web client, and the work that it starts with `go`.
use dispatch.Base.{ℕ, Bytes, Bool, List}
use dispatch.Base.Int.{ℤ}
use dispatch.Irc.Client.{ConnectionState}
use dispatch.Irc.Dcc.{DccSend}
use dispatch.Irc.Features.{Features}
use dispatch.Irc.Message.{Message}
use dispatch.Irc.Mode.{Mode}
use dispatch.Storage.Bolt.Messages
use dispatch.Storage.ChannelIndex.{ChannelListItem}

-- `WhoisReply`
pub record WhoisReply : Type 0 where
  pub nick : Bytes
  pub username : Bytes
  pub host : Bytes
  pub realname : Bytes
  pub server : Bytes
  pub channels : List Bytes

-- `MOTD`
pub record Motd : Type 0 where
  pub network : Bytes
  pub title : Bytes
  pub content : List Bytes

-- `Message`, without the type that no code sets
pub record ChatMessage : Type 0 where
  pub id : Bytes
  pub network : Bytes
  pub sender : Bytes
  pub to : Bytes
  pub content : Bytes

-- `WSResponse`: its type, and the fields of its data in their order
pub data Response : Type 0 where
  nick : (network old fresh : Bytes) → Response
  nick_fail : (network : Bytes) → Response
  join : (network user : Bytes) (channels : List Bytes) → Response
  part : (network user channel reason : Bytes) → Response
  kick : (network channel sender user reason : Bytes) → Response
  mode : Mode → Response
  quit : (network user reason : Bytes) → Response
  pm : ChatMessage → Response
  message : ChatMessage → Response
  messages :
      (network to : Bytes) (found : List Messages.Message) (prepend : Bool) (next : Bytes)
      → Response
  topic : (network channel text nick : Bytes) → Response
  users : (network channel : Bytes) (names : List Bytes) → Response
  motd : Motd → Response
  whois : WhoisReply → Response
  features : (network : Bytes) → Features → Response
  network_name : (network name : Bytes) → Response
  error : (network target text : Bytes) → Response
  channel_forward : (network old fresh : Bytes) → Response
  channel_search : (network q : Bytes) (start : ℤ) (found : List ChannelListItem) → Response
  search : (network channel : Bytes) (found : List Messages.Message) → Response
  dcc_send : (network sender file : Bytes) (size : ℕ) (url : Bytes) → Response
  connection_update : (network : Bytes) → ConnectionState → Response

-- What a goroutine does, and the calls of the user's store
pub data Task : Type 0 where
  log_event : (network name : Bytes) (params channels : List Bytes) → Task
  log_message : ChatMessage → Task
  add_open_dm : (network nick : Bytes) → Task
  remove_open_dm : (network nick : Bytes) → Task
  save_network : (network : Bytes) → Task
  save_channel : (network channel : Bytes) → Task
  remove_channel : (network channel : Bytes) → Task
  remove_network : (network : Bytes) → Task
  set_stored_nick : (nick network : Bytes) → Task
  set_stored_name : (name network : Bytes) → Task
  finish_index : (network : Bytes) (channels : List ChannelListItem) → Task
  timeout_update : (network : Bytes) → Task
  receive_dcc : DccSend → Message → Task
  identd_remove : Task
