-- ===== src/Irc/Client.antt =====
-- pkg/irc/client.go and the writers of pkg/irc/conn.go: the client's state, what it has written and what
-- is queued. The lock makes each operation one step.
use dispatch.Base.{
  Bytes, Bool, false, List, [], ◌∷◌, ◌++◌, Option, none, some, codes, bytes_eq, if◌then◌else◌,
  is_empty, join, trim_right,
}
use dispatch.Irc.Casefold.{equal_fold, rfc1459}
use dispatch.Irc.Features.{Features, feature_text}
use dispatch.Irc.Message.{Message}
use dispatch.Irc.Sasl.{Mech, init_mechanisms}
use dispatch.Irc.State
use dispatch.Irc.State.{State}

pub record Config : Type 0 where
  pub host : Bytes
  pub port : Bytes
  pub tls : Bool
  pub has_certificate : Bool
  pub server_password : Bytes
  pub nick : Bytes
  pub username : Bytes
  pub realname : Bytes
  pub sasl_mechanisms : Option (List Bytes)
  pub account : Bytes
  pub password : Bytes
  pub auto_ctcp : Bool
  pub version : Bytes
  pub source : Bytes
  pub handle_nick_in_use : Option (Bytes → Bytes)

abbrev pub Caps : Type 0
Caps = List (Bytes × Option (List Bytes))

-- What the client tells of its connection: `Connected`, and the text of an error.
pub record ConnectionState : Type 0 where
  pub connected : Bool
  pub error : Option Bytes

-- The channels `Messages`, `ConnectionChanged` and `out` are kept as all that was sent on them, and
-- `written` holds the lines written to the connection itself.
pub record Client : Type 0 where
  pub config : Config
  pub features : Features
  pub state : State
  pub nick : Bytes
  pub channels : List Bytes
  pub wanted : List Bytes
  pub requested : Caps
  pub enabled : Caps
  pub negotiating : Bool
  pub mechanisms : List Mech
  pub current : Option Mech
  pub connected : Bool
  pub registered : Bool
  pub sending : Bool
  pub quit : Bool
  pub reconnect : Bool
  pub messages : List Message
  pub changes : List ConnectionState
  pub out : List Bytes
  pub written : List Bytes

abbrev pub crlf : Bytes
crlf = 0x0D ∷ 0x0A ∷ []

-- `Write`: through the queue
unfoldable pub write_out : Bytes → Client → Client
write_out line c = record c { out = c.out ++ (line ++ crlf) ∷ [] }

-- `write`: to the connection
unfoldable pub write : Bytes → Client → Client
write line c = record c { written = c.written ++ (line ++ crlf) ∷ [] }

-- `CASEMAPPING`, or the mapping of RFC 1459
unfoldable pub mapping_of : Client → Bytes
mapping_of c =
    let mapping = feature_text (codes "CASEMAPPING") c.features in
    if is_empty mapping then rfc1459 else mapping

unfoldable pub client_equal_fold : Client → Bytes → Bytes → Bool
client_equal_fold c s1 s2 = equal_fold (mapping_of c) s1 s2

-- `Is`
unfoldable pub is_me : Client → Bytes → Bool
is_me c nick = client_equal_fold c nick c.nick

unfoldable pub set_nick : Bytes → Client → Client
set_nick nick c = record c { nick = nick }

unfoldable pub add_channel : Bytes → Client → Client
add_channel channel c = record c { channels = c.channels ++ channel ∷ [] }

-- The inner loop of `removeChannels`: the first channel that is equal up to case
unfoldable pub remove_fold : (Bytes → Bytes → Bool) → Bytes → List Bytes → List Bytes
remove_fold same channel [] = []
remove_fold same channel (ch ∷ chs) =
    let rest = remove_fold same channel chs in if same channel ch then chs else ch ∷ rest

unfoldable pub remove_folds : (Bytes → Bytes → Bool) → List Bytes → List Bytes → List Bytes
unfolding remove_fold
remove_folds same [] chs = chs
remove_folds same (r ∷ rs) chs = remove_folds same rs (remove_fold same r chs)

unfoldable pub remove_channels : List Bytes → Client → Client
remove_channels channels c = record c {
  channels = remove_folds (client_equal_fold c) channels c.channels;
}

unfoldable pub join_channels : List Bytes → Client → Client
unfolding write_out
join_channels channels c = write_out (codes "JOIN " ++ join channels (codes ",")) c

unfoldable pub part_channels : List Bytes → Client → Client
unfolding write_out remove_channels
part_channels channels c =
    remove_channels channels (write_out (codes "PART " ++ join channels (codes ",")) c)

unfoldable pub flush_channels : Client → Client
unfolding join_channels
flush_channels c =
    if is_empty c.channels then c else record (join_channels c.channels c) { channels = [] }

unfoldable pub topic : Bytes → Option Bytes → Client → Client
unfolding write_out
topic channel none c = write_out (codes "TOPIC " ++ channel) c
topic channel (some t) c = write_out (codes "TOPIC " ++ channel ++ codes " :" ++ t) c

unfoldable pub mode : Bytes → Bytes → Bytes → Client → Client
unfolding write_out
mode target modes params c =
    write_out
      (trim_right (codes "MODE " ++ target ++ codes " " ++ modes ++ codes " " ++ params) b' ') c

unfoldable pub notice : Bytes → Bytes → Client → Client
unfolding write_out
notice target msg c = write_out (codes "NOTICE " ++ target ++ codes " :" ++ msg) c

unfoldable pub privmsg : Bytes → Bytes → Client → Client
unfolding write_out
privmsg target msg c = write_out (codes "PRIVMSG " ++ target ++ codes " :" ++ msg) c

-- `register`, run when a connection stands
unfoldable pub register : Client → Client
unfolding write
register c =
    let begun = write (codes "CAP LS 302") c in
    let passed =
      if is_empty c.config.server_password
      then begun
      else write (codes "PASS " ++ c.config.server_password) begun in
    let named = write (codes "NICK " ++ c.config.nick) passed in
    write (codes "USER " ++ c.config.username ++ codes " 0 * :" ++ c.config.realname) named

abbrev or_else : Bytes → Bytes → Bytes
or_else s other = if is_empty s then other else s

abbrev pub default_mechanisms : List Bytes
default_mechanisms = codes "EXTERNAL" ∷ codes "SCRAM-SHA-256" ∷ codes "PLAIN" ∷ []

abbrev given : Option (List Bytes) → List Bytes
given none = default_mechanisms
given (some ms) = ms

-- `initSASL`
unfoldable pub init_sasl : Client → Client
init_sasl c =
    let ms =
      init_mechanisms c.config.has_certificate c.config.account c.config.password
        (given c.config.sasl_mechanisms) in
    let base = record c { wanted = codes "cap-notify" ∷ []; negotiating = false; current = none } in
    if is_empty ms
    then base
    else record base { wanted = codes "cap-notify" ∷ codes "sasl" ∷ []; mechanisms = ms }

-- The defaults that `NewClient` fills in.
unfoldable pub with_defaults : Config → Config
with_defaults config = record config {
  port = or_else config.port (if config.tls then codes "6697" else codes "6667");
  username = or_else config.username config.nick;
  realname = or_else config.realname config.nick;
  sasl_mechanisms = some (given config.sasl_mechanisms);
}

unfoldable pub new_client : Config → Client
unfolding with_defaults init_sasl
new_client config = init_sasl (record {
  config = with_defaults config;
  features = [];
  state = State.new_state;
  nick = config.nick;
  channels = [];
  wanted = [];
  requested = [];
  enabled = [];
  negotiating = false;
  mechanisms = [];
  current = none;
  connected = false;
  registered = false;
  sending = false;
  quit = false;
  reconnect = false;
  messages = [];
  changes = [];
  out = [];
  written = [];
})
