-- ===== src/Irc/Handle.antt =====
-- pkg/irc/internal.go: `handleMessage`; pkg/irc/ctcp.go: `handleCTCP`; the loop body of `recv` in
-- pkg/irc/conn.go. A `go c.write(…)` is written at once, and `close(c.quit)` panics on a closed channel.
pub mod Laws
pub mod Names
pub mod Rejoin
use mathlib.Core.Option
use dispatch.Base.{
  ℕ, Bytes, Bool, true, false, not, ◌&&◌, ◌||◌, List, [], ◌∷◌, ◌++◌, Option, none, some, codes,
  ◌==◌, nat_eq, bytes_eq, if◌then◌else◌, Outcome, ok, panic, ◌>>=◌, is_empty, length, get_elem?,
  trim, trim_suffix, split, lookup, insert, delete,
}
use dispatch.Irc.Const.{Command, command_of}
use dispatch.Irc.Mode.{Mode, parse_mode, is_channel}
use dispatch.Irc.Message.{Message, Meta, last_param, parse_message}
use dispatch.Irc.Ctcp.{Ctcp, encode_ctcp, to_ctcp}
use dispatch.Irc.State.{
  State, add_user, remove_channel, remove_user, remove_user_all, rename_user, set_mode, set_topic,
  set_users,
}
use dispatch.Irc.Features.{parse_features}
use dispatch.Irc.Sasl.{Scram}
use dispatch.Irc.Client.{
  Client, Config, ConnectionState, write, notice, is_me, set_nick, add_channel, remove_channels,
  flush_channels,
}
use dispatch.Irc.Negotiation.{handle_cap, handle_sasl}

-- The library's SCRAM, and the time in RFC 3339
pub record Env : Type 0 where
  pub scram : Scram
  pub now : Bytes

-- `ReplyCTCP`
unfoldable pub reply_ctcp : Bytes → Bytes → Bytes → Client → Client
reply_ctcp target command params c =
    notice target (encode_ctcp (some (record { command = command; params = params }))) c

abbrev pub client_info : Bytes
client_info = codes "ACTION CLIENTINFO DCC FINGER PING SOURCE TIME VERSION USERINFO"

-- `handleCTCP`
unfoldable pub handle_ctcp : Bytes → Ctcp → Message → Client → Client
handle_ctcp now ctcp msg c =
    let reply : Bytes → Client = λ params. reply_ctcp msg.sender ctcp.command params c in
    if ctcp.command == codes "CLIENTINFO"
    then reply client_info
    else if ctcp.command == codes "FINGER" || ctcp.command == codes "VERSION"
    then if is_empty c.config.version then c else reply c.config.version
    else if ctcp.command == codes "PING"
    then reply ctcp.params
    else if ctcp.command == codes "SOURCE"
    then if is_empty c.config.source then c else reply c.config.source
    else if ctcp.command == codes "TIME"
    then reply now
    else if ctcp.command == codes "USERINFO"
    then reply (c.nick ++ codes " (" ++ c.config.realname ++ codes ")")
    else c

abbrev pub on_state : (State → State) → Client → Client
on_state f c = record c { state = f c.state }

unfoldable pub on_join : Message → Client → Client
on_join msg c = elim msg.params [
  | [] ↦ c
  | channel ∷ _ ↦
      on_state (add_user msg.sender channel)
        (if is_me c msg.sender then add_channel channel c else c)
]

unfoldable pub on_part : Message → Client → Client
on_part msg c = elim msg.params [
  | [] ↦ c
  | channel ∷ _ ↦
      if is_me c msg.sender
      then on_state (remove_channel channel) c
      else on_state (remove_user msg.sender channel) c
]

unfoldable pub on_quit : Message → Client → Client × Message
on_quit msg c =
    let (s, channels) = remove_user_all msg.sender c.state in
    (record c { state = s }, record msg { meta = Meta.names channels })

unfoldable pub on_kick : Message → Client → Client
on_kick msg c = elim msg.params [
  | channel ∷ nick ∷ _ ↦
      if is_me c nick
      then on_state (remove_channel channel) (remove_channels (channel ∷ []) c)
      else on_state (remove_user nick channel) c
  | _ ↦ c
]

unfoldable pub on_nick : Message → Client → Client × Message
on_nick msg c =
    let d = if is_me c msg.sender then set_nick (last_param msg) c else c in
    let (s, channels) = rename_user msg.sender (last_param msg) d.state in
    (record d { state = s }, record msg { meta = Meta.names channels })

unfoldable pub on_privmsg : Bytes → Message → Client → Client
on_privmsg now msg c =
    if c.config.auto_ctcp
    then elim (to_ctcp msg) [ none ↦ c | some ctcp ↦ handle_ctcp now ctcp msg c ]
    else c

unfoldable pub mode_of : Client → Bytes → Bytes → Bytes → Mode
mode_of c target modes user = record (parse_mode modes) {
  network = c.config.host;
  channel = target;
  user = user;
}

unfoldable pub on_mode : Message → Client → Client × Message
unfolding mode_of
on_mode msg c = elim msg.params [
  | target ∷ modes ∷ user ∷ _ ↦
      let m = mode_of c target modes user in
      if is_channel target
      then (
        on_state (set_mode target user m.add m.remove) c,
        record msg { meta = Meta.mode_change m },
      )
      else (c, msg)
  | _ ↦ (c, msg)
]

-- TOPIC and RPL_TOPIC, whose channel is the parameter at an index of its own
unfoldable pub on_topic : Option Bytes → Message → Client → Client
on_topic none msg c = c
on_topic (some channel) msg c = on_state (set_topic (last_param msg) channel) c

unfoldable pub on_no_topic : Message → Client → Client
on_no_topic msg c = elim (get_elem? msg.params 1) [
  | none ↦ c
  | some channel ↦ on_state (set_topic [] channel) c
]

unfoldable pub on_welcome : Message → Client → Client
on_welcome msg c =
    let named : Client = elim msg.params [ [] ↦ c | nick ∷ _ ↦ set_nick nick c ] in
    let joined = flush_channels (record named { negotiating = false; registered = true }) in
    record joined { sending = true }

unfoldable pub on_isupport : Message → Client → Outcome Client
on_isupport msg c = parse_features c.features msg.params >>= λ f. ok (record c { features = f })

unfoldable pub on_nick_in_use : Message → Client → Client
on_nick_in_use msg c = elim c.config.handle_nick_in_use [
  | none ↦ c
  | some handle ↦ elim (get_elem? msg.params 1) [
    | none ↦ c
    | some nick ↦ write (codes "NICK " ++ handle nick) c
  ]
]

-- `c.state.userBuffers[channel]`, nil when it is missing
unfoldable pub buffered : Bytes → State → List Bytes
buffered channel s = elim (lookup channel s.user_buffers) [ none ↦ [] | some us ↦ us ]

unfoldable pub on_names : Message → Client → Client
unfolding buffered
on_names msg c = elim (get_elem? msg.params 2) [
  | none ↦ c
  | some channel ↦
      let users = split (trim_suffix (last_param msg) (codes " ")) b' ' in
      let s = c.state in
      record c {
        state = record s {
          user_buffers = insert channel (buffered channel s ++ users) s.user_buffers;
        };
      }
]

unfoldable pub on_end_of_names : Message → Client → Client × Message
unfolding buffered
on_end_of_names msg c = elim (get_elem? msg.params 1) [
  | none ↦ (c, msg)
  | some channel ↦
      let users = buffered channel c.state in
      let s = set_users users channel c.state in
      (
        record c { state = record s { user_buffers = delete channel s.user_buffers } },
        record msg { meta = Meta.names users },
      )
]

-- `c.Messages <- msg`
unfoldable pub deliver : Message → Client → Client
deliver msg c = record c { messages = c.messages ++ msg ∷ [] }

-- `connChange`
unfoldable pub conn_change : Bool → Option Bytes → Client → Client
conn_change connected error c = record c {
  changes = c.changes ++ record { connected = connected; error = error } ∷ [];
}

-- `close(c.quit)`
unfoldable pub close_quit : Client → Outcome Client
close_quit c = if c.quit then panic else ok (record c { quit = true })

unfoldable pub on_error : Message → Client → Outcome Client
unfolding deliver conn_change close_quit
on_error msg c = close_quit (conn_change false none (deliver msg c))

abbrev keeping : Message → Client → Outcome (Client × Message)
keeping msg c = ok (c, msg)

-- The switch of `handleMessage`, but for ERROR
unfoldable pub handle_command : Env → Command → Message → Client → Outcome (Client × Message)
handle_command env Command.cap msg c = keeping msg (handle_cap msg c)
handle_command env Command.ping msg c = keeping msg (write (codes "PONG :" ++ last_param msg) c)
handle_command env Command.join msg c = keeping msg (on_join msg c)
handle_command env Command.part msg c = keeping msg (on_part msg c)
handle_command env Command.quit msg c = ok (on_quit msg c)
handle_command env Command.kick msg c = keeping msg (on_kick msg c)
handle_command env Command.nick msg c = ok (on_nick msg c)
handle_command env Command.privmsg msg c = keeping msg (on_privmsg env.now msg c)
handle_command env Command.mode msg c = ok (on_mode msg c)
handle_command env Command.topic msg c = keeping msg (on_topic (get_elem? msg.params 0) msg c)
handle_command env Command.rpl_topic msg c = keeping msg (on_topic (get_elem? msg.params 1) msg c)
handle_command env Command.rpl_notopic msg c = keeping msg (on_no_topic msg c)
handle_command env Command.rpl_welcome msg c = keeping msg (on_welcome msg c)
handle_command env Command.rpl_isupport msg c = on_isupport msg c >>= keeping msg
handle_command env Command.err_nicknameinuse msg c = keeping msg (on_nick_in_use msg c)
handle_command env Command.err_nickcollision msg c = keeping msg (on_nick_in_use msg c)
handle_command env Command.err_unavailresource msg c = keeping msg (on_nick_in_use msg c)
handle_command env Command.rpl_namreply msg c = keeping msg (on_names msg c)
handle_command env Command.rpl_endofnames msg c = ok (on_end_of_names msg c)
handle_command env _ msg c = keeping msg c

abbrev then_sasl : Env → Command → Client × Message → Outcome (Client × Message)
then_sasl env cmd (c, msg) = ok (handle_sasl env.scram cmd msg c, msg)

unfoldable pub handle_as : Env → Command → Message → Client → Outcome (Client × Message)
unfolding handle_command
handle_as env Command.error msg c = on_error msg c >>= keeping msg
handle_as env cmd msg c = handle_command env cmd msg c >>= then_sasl env cmd

-- `handleMessage`: the client, and the message with its `meta`
unfoldable pub handle_message : Env → Message → Client → Outcome (Client × Message)
unfolding handle_as
handle_message env msg c = handle_as env (command_of msg.command) msg c

abbrev pub err_bad_protocol : Bytes
err_bad_protocol = codes "This server does not speak IRC"

abbrev pub keep_receiving : Client × Message → Outcome (Client × Bool)
keep_receiving (c, msg) = ok (deliver msg c, true)

-- What `recv` does with a parsed line, and whether it goes on.
unfoldable pub receive : Env → Option Message → Client → Outcome (Client × Bool)
unfolding conn_change close_quit handle_message deliver
receive env none c = close_quit (conn_change false (some err_bad_protocol) c) >>= λ d. ok (d, false)
receive env (some msg) c = handle_message env msg c >>= keep_receiving

-- One round of `recv`
unfoldable pub recv_line : Env → Bytes → Client → Outcome (Client × Bool)
unfolding receive
recv_line env line c =
    let b = trim line b' ' in
    if is_empty b then ok (c, true) else parse_message b >>= λ parsed. receive env parsed c

-- The lines one after the other, until one stops the loop.
unfoldable pub recv_lines : Env → List Bytes → Client → Outcome (Client × Bool)
unfolding recv_line
recv_lines env [] c = ok (c, true)
recv_lines env (line ∷ lines) c = recv_line env line c >>= λ after. elim after.1 [
  | true ↦ recv_lines env lines after.0
  | false ↦ ok after
]
