-- ===== src/Storage/Network.antt =====
-- storage/network.go: a network of a user while the program runs, and its channels. Its lock makes each
-- operation one step; a channel is named by its key in the network's map.
use dispatch.Base.{
  Bytes, Bool, false, List, [], ◌∷◌, ◌++◌, Option, none, some, codes, bytes_eq, lookup, insert,
  delete,
}
use dispatch.Irc.Client.{Config}
use dispatch.Irc.Features.{Features}
use dispatch.Storage.Bolt.{Network}

pub record LiveChannel : Type 0 where
  pub network : Bytes
  pub name : Bytes
  pub topic : Bytes
  pub joined : Bool

-- The fields that are stored, and those that are not
pub record LiveNetwork : Type 0 where
  pub info : Network
  pub features : Features
  pub connected : Bool
  pub error : Bytes
  pub channels : List (Bytes × LiveChannel)

-- `IRCConfig`, for a version tag and a commit
unfoldable pub irc_config : Bytes → Bytes → LiveNetwork → Config
irc_config tag commit n = record {
  host = n.info.host;
  port = n.info.port;
  tls = n.info.tls;
  has_certificate = false;
  server_password = [];
  nick = n.info.nick;
  username = n.info.username;
  realname = n.info.realname;
  sasl_mechanisms = none;
  account = n.info.account;
  password = n.info.password;
  auto_ctcp = false;
  version = codes "Dispatch " ++ tag ++ codes " (git: " ++ commit ++ codes ")";
  source = codes "https://github.com/khlieng/dispatch";
  handle_nick_in_use = none;
}

-- `SetName`
unfoldable pub set_network_name : Bytes → LiveNetwork → LiveNetwork
set_network_name name n = record n { info = record n.info { name = name } }

-- `SetNick`
unfoldable pub set_network_nick : Bytes → LiveNetwork → LiveNetwork
set_network_nick nick n = record n { info = record n.info { nick = nick } }

unfoldable pub set_features : Features → LiveNetwork → LiveNetwork
set_features features n = record n { features = features }

unfoldable pub set_status : Bool → Bytes → LiveNetwork → LiveNetwork
set_status connected err n = record n { connected = connected; error = err }

-- `Channel`; `none` is nil.
unfoldable pub channel_of : Bytes → LiveNetwork → Option LiveChannel
channel_of name n = lookup name n.channels

-- `ChannelNames`
unfoldable pub channel_names : LiveNetwork → List Bytes
channel_names n = names n.channels
  where
    names : List (Bytes × LiveChannel) → List Bytes
    names [] = []
    names ((k, ch) ∷ rest) = ch.name ∷ names rest

-- `NewChannel`
unfoldable pub new_channel : Bytes → LiveNetwork → LiveChannel
new_channel name n = record { network = n.info.host; name = name; topic = []; joined = false }

-- `AddChannel`
unfoldable pub add_live_channel : LiveChannel → LiveNetwork → LiveNetwork
add_live_channel ch n = record n { channels = insert ch.name ch n.channels }

-- `RemoveChannels`
unfoldable pub remove_live_channels : List Bytes → LiveNetwork → LiveNetwork
remove_live_channels [] n = n
remove_live_channels (name ∷ names) n =
    remove_live_channels names (record n { channels = delete name n.channels })

-- A change of the channel at a key; the methods of a nil channel do nothing.
abbrev on_channel : (LiveChannel → LiveChannel) → Bytes → LiveNetwork → LiveNetwork
on_channel f name n = elim (lookup name n.channels) [
  | none ↦ n
  | some ch ↦ record n { channels = insert name (f ch) n.channels }
]

-- `SetTopic` of `Channel(name)`
unfoldable pub set_channel_topic : Bytes → Bytes → LiveNetwork → LiveNetwork
set_channel_topic topic name n = on_channel (λ ch. record ch { topic = topic }) name n

-- `SetJoined` of `Channel(name)`
unfoldable pub set_joined : Bool → Bytes → LiveNetwork → LiveNetwork
set_joined joined name n = on_channel (λ ch. record ch { joined = joined }) name n

-- `IsJoined` of `Channel(name)`
unfoldable pub is_joined : Bytes → LiveNetwork → Bool
is_joined name n = elim (lookup name n.channels) [ none ↦ false | some ch ↦ ch.joined ]
