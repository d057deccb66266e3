-- ===== src/Tests/Clients.antt =====
-- Operations of package pkg/irc on a client at concrete inputs.
use Prim.Native.Nat.{◌<◌}
use mathlib.Core.Logic.{◌↔◌}
use dispatch.Base.{
  ◌/◌, ◌≤◌, get_or, length, arith, ◌++◌, Bytes, Bytes, true, false, not, ◌&&◌, ◌||◌, List, [], ◌∷◌,
  ◌++◌, none, codes, ◌==◌, nat_eq, bytes_eq, bytes_beq, if◌then◌else◌, panic, ◌≡◌, refl, arith,
  contains, length, lookup, has_key, join, ◌⊎◌,
}
use dispatch.Irc.Const.{Command, command_of}
use dispatch.Irc.Message.{Message, Meta}
use dispatch.Irc.State.{
  remove_user, has_nick, State, Roster, get_users, add_user, remove_user_all, rename_user,
}
use dispatch.Irc.State.Everywhere.{
  is_member-remove_user_all, remove_user_all-channels, is_member-rename_user, everywhere, renamed,
}
use dispatch.Irc.State.Members.{
  IsRoster, DistinctChannels, Unprefixed, is_member, is_member-add_user, is_member-remove_user,
}
use dispatch.Irc.Sasl.{Mech, auth_chunks}
use dispatch.Irc.Sasl.Chunks.{auth_chunks_lem}
use dispatch.Irc.Client.{Client, Config, crlf}
use dispatch.Irc.Negotiation.{handle_cap, handle_sasl}
use dispatch.Irc.Negotiation.Wanted.{IsWanted, handle_cap-IsWanted}
use dispatch.Irc.Negotiation.Progress.{repeat, auth_line, cap_end, refusals}
use dispatch.Irc.Handle.{Env, on_end_of_names, on_welcome, buffered, handle_message}
use dispatch.Irc.Handle.Laws.{handle_message-panic_iff}
use dispatch.Irc.Handle.Names.{names_end, receive_names, names_burst}
use dispatch.Irc.Conn.{Attempt}
use dispatch.Irc.Conn.Attempts.{failed}
use dispatch.Irc.Conn.Reconnect.{Reconnects, run_reconnect_lem}
use dispatch.Irc.Handle.Rejoin.{welcome_message, receive_joins, rejoin}

abbrev config : Config
config = record {
  host = codes "irc.example";
  port = codes "6667";
  tls = false;
  has_certificate = false;
  server_password = [];
  nick = codes "ann";
  username = codes "ann";
  realname = codes "ann";
  sasl_mechanisms = none;
  account = codes "ann";
  password = codes "pw";
  auto_ctcp = false;
  version = [];
  source = [];
  handle_nick_in_use = none;
}

abbrev plain_login : Mech
plain_login = Mech.plain (codes "ann") (codes "pw")

abbrev two_channels : Roster
two_channels =
    (
      codes "#a",
      record { nick = codes "ann"; modes = []; prefix = [] }
          ∷ record { nick = codes "bob"; modes = codes "o"; prefix = codes "@" }
          ∷ [],
    )
    ∷ (codes "#b", record { nick = codes "bob"; modes = []; prefix = [] } ∷ [])
    ∷ []

abbrev peopled : State
peopled = record { users = two_channels; topic = []; user_buffers = []; motd = [] }

-- In two channels, in the middle of a negotiation
abbrev client : Client
client = record {
  config = config;
  features = [];
  state = peopled;
  nick = codes "ann";
  channels = codes "#a" ∷ codes "#b" ∷ [];
  wanted = codes "cap-notify" ∷ codes "sasl" ∷ [];
  requested = [];
  enabled = (codes "sasl", none) ∷ [];
  negotiating = true;
  mechanisms = plain_login ∷ [];
  current = none;
  connected = true;
  registered = false;
  sending = false;
  quit = false;
  reconnect = false;
  messages = [];
  changes = [];
  out = [];
  written = [];
}

abbrev message : Bytes → List Bytes → Message
message command params = record {
  tags = [];
  sender = codes "irc.example";
  ident = [];
  host = [];
  command = command;
  params = params;
  meta = Meta.no_meta;
}

-- A SCRAM that refuses every challenge
abbrev env : Env
env = record {
  scram = record { accepts = λ h u p. false; respond = λ h u p past c. none };
  now = codes "2020-01-01T00:00:00Z";
}

peopled-IsRoster : IsRoster two_channels
unfolding has_nick bytes_beq
peopled-IsRoster = ground arith

peopled-DistinctChannels : DistinctChannels two_channels
unfolding contains bytes_beq
peopled-DistinctChannels = ground arith

cat-Unprefixed : Unprefixed (codes "cat")
unfolding contains
cat-Unprefixed = ground arith

client-IsWanted : IsWanted client
unfolding has_key lookup contains
client-IsWanted = (λ name h. ground (arith, h), λ name h. ground (arith, h), tt)

handle_message-panic_iff_example :
    (handle_message env (message (codes "005") []) client ≡ panic) ↔ (
      ((command_of (codes "005") ≡ Command.rpl_isupport) × (0 < 2))
      ⊎ ((command_of (codes "005") ≡ Command.error) × (false ≡ true)))
handle_message-panic_iff_example = handle_message-panic_iff env (message (codes "005") []) client

names_burst_example :
    (get_users
        (codes "#a")
        (on_end_of_names (names_end (codes "ann") (codes "#a")) (
          receive_names
            (codes "ann")
            (codes "#a")
            ((codes "@bob", codes "cat" ∷ []) ∷ (codes "ann", []) ∷ [])
            client)).0.state
      ≡ buffered (codes "#a") peopled ++ (codes "@bob" ∷ codes "cat" ∷ codes "ann" ∷ []))
    × (buffered
          (codes "#a")
          (on_end_of_names (names_end (codes "ann") (codes "#a")) (
            receive_names
              (codes "ann")
              (codes "#a")
              ((codes "@bob", codes "cat" ∷ []) ∷ (codes "ann", []) ∷ [])
              client)).0.state
        ≡ [])
unfolding bytes_beq
names_burst_example =
    names_burst (codes "ann") (codes "#a") (codes "#a")
      ((codes "@bob", codes "cat" ∷ []) ∷ (codes "ann", []) ∷ []) client (ground arith)

is_member-add_user_example :
    is_member (codes "cat") (codes "#a") (add_user (codes "cat") (codes "#a") peopled) ≡ (
      is_member (codes "cat") (codes "#a") peopled
      || (codes "#a" == codes "#a" && codes "cat" == codes "cat"))
is_member-add_user_example =
    is_member-add_user (codes "cat") (codes "#a") (codes "cat") (codes "#a") peopled cat-Unprefixed

is_member-remove_user_all_example :
    is_member (codes "ann") (codes "#a") (remove_user_all (codes "bob") peopled).0
    ≡ (is_member (codes "ann") (codes "#a") peopled && not (codes "ann" == codes "bob"))
is_member-remove_user_all_example =
    is_member-remove_user_all (codes "bob") (codes "ann") (codes "#a") peopled peopled-IsRoster

remove_user_all-channels_example :
    contains (remove_user_all (codes "bob") peopled).1 (codes "#b")
    ≡ is_member (codes "bob") (codes "#b") peopled
remove_user_all-channels_example =
    remove_user_all-channels (codes "bob") (codes "#b") peopled peopled-DistinctChannels

is_member-rename_user_example :
    ((rename_user (codes "bob") (codes "rob") peopled).0
      ≡ record peopled { users = everywhere (renamed (codes "bob") (codes "rob")) two_channels })
    × (is_member (codes "rob") (codes "#a") (rename_user (codes "bob") (codes "rob") peopled).0 ≡ (
        if is_member (codes "bob") (codes "#a") peopled
        then codes "rob" == codes "rob"
          || (is_member (codes "rob") (codes "#a") peopled && not (codes "rob" == codes "bob"))
        else is_member (codes "rob") (codes "#a") peopled))
is_member-rename_user_example =
    is_member-rename_user (codes "bob") (codes "rob") (codes "rob") (codes "#a") peopled
      peopled-IsRoster

handle_cap-IsWanted_example : IsWanted (
    handle_cap
      (message (codes "CAP") (codes "*" ∷ codes "LS" ∷ codes "sasl=PLAIN multi-prefix" ∷ []))
      client)
handle_cap-IsWanted_example =
    handle_cap-IsWanted
      (message (codes "CAP") (codes "*" ∷ codes "LS" ∷ codes "sasl=PLAIN multi-prefix" ∷ [])) client
      client-IsWanted

refusals_example :
    ((repeat 2
        (handle_sasl env.scram Command.err_saslfail (message (codes "904") []))
        client).written
      ≡ auth_line plain_login ∷ cap_end ∷ [])
    × ((repeat 2
          (handle_sasl env.scram Command.err_saslfail (message (codes "904") []))
          client).negotiating
        ≡ false)
refusals_example = refusals env.scram (message (codes "904") []) client (plain_login ∷ []) refl refl

abbrev fifty : Bytes
fifty = codes "MDEyMzQ1Njc4OTAxMjM0NTY3ODkwMTIzNDU2Nzg5MDEyMzQ1Nj"

abbrev two_hundred : Bytes
two_hundred = fifty ++ fifty ++ fifty ++ fifty

abbrev long_response : Bytes
long_response = two_hundred ++ two_hundred ++ codes "QQ=="

long_response-fits : 1 ≤ length long_response / 400
long_response-fits = omega arith

auth_chunks_lem_example :
    (length (auth_chunks long_response) ≡ 2)
    × (get_or (auth_chunks long_response) 1 [] ≡ codes "QQ==")
auth_chunks_lem_example = auth_chunks_lem long_response 1 long_response-fits

rejoin_example :
    ((on_welcome (welcome_message (codes "ann")) client).out ≡ (codes "JOIN #a,#b" ++ crlf) ∷ [])
    × ((receive_joins
          (codes "ann")
          (codes "#a" ∷ codes "#b" ∷ [])
          (on_welcome (welcome_message (codes "ann")) client)).channels
        ≡ codes "#a" ∷ codes "#b" ∷ [])
unfolding join
rejoin_example = rejoin client (codes "ann")

run_reconnect_lem_example :
    Reconnects (Attempt.fails (codes "refused") ∷ Attempt.stands ∷ []) none client (
      client.changes
      ++ (record { connected = false; error = none }
          ∷ (failed (codes "refused") ∷ record { connected = true; error = none } ∷ [])))
run_reconnect_lem_example = run_reconnect_lem none (codes "refused" ∷ []) [] client refl

is_member-remove_user_example :
    is_member (codes "bob") (codes "#b") (remove_user (codes "bob") (codes "#a") peopled) ≡ (
      is_member (codes "bob") (codes "#b") peopled
      && not (codes "#a" == codes "#b" && codes "bob" == codes "bob"))
is_member-remove_user_example =
    is_member-remove_user (codes "bob") (codes "#a") (codes "bob") (codes "#b") peopled
      peopled-IsRoster
