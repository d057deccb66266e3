-- ===== src/Server/Handler/Dispatch.antt =====
-- server/irc_handler.go: `dispatchMessage` with the table of `initHandlers`, and the cases of `run` for
-- the client's messages and the changes of its connection.
use dispatch.Base.{
  Bytes, Bool, not, ◌&&◌, ◌||◌, List, [], ◌∷◌, ◌++◌, Option, none, some, codes, ◌==◌, nat_eq,
  bytes_eq, if◌then◌else◌, Outcome, ok, ◌>>=◌, at, join, contains, trim_suffix,
}
use dispatch.Irc.Client.{ConnectionState}
use dispatch.Irc.Const.{Command, command_of}
use dispatch.Irc.Message.{Message, last_param}
use dispatch.Irc.Mode.{is_channel}
use dispatch.Server.Handler.{
  Env, Handler, host_of, on_host, on_live, on_nick, on_join, on_part, on_kick, on_mode, on_message,
  on_quit, on_info, on_features, send,
}
use dispatch.Server.Handler.Replies.{
  bad_nick, list_end, motd_end, motd_start, names_end, no_topic, on_error, on_forward, on_list,
  on_motd, on_topic, whois_channels, whois_end, whois_server, whois_user,
}
use dispatch.Server.Json.{Response}
use dispatch.Server.Live.{delete_network}
use dispatch.Storage.Network.{set_status}

abbrev pub excluded_errors : List Bytes
excluded_errors = codes "433" ∷ codes "436" ∷ codes "437" ∷ codes "470" ∷ []

-- `isExcludedError`
unfoldable pub is_excluded_error : Bytes → Bool
is_excluded_error cmd = contains excluded_errors cmd

-- The response to a numeric of an error
unfoldable pub report_error : Message → Handler → Outcome Handler
unfolding is_excluded_error
report_error msg i = at msg.command 0 >>= λ c. elim msg.params [
  | _ ∷ second ∷ rest ↦
      if (c == b'4' || c == b'5') && not (is_excluded_error msg.command)
      then ok (
          send
            (Response.error (host_of i) (if is_channel second then second else [])
              (join (second ∷ rest) (codes " ")))
            i)
      else ok i
  | _ ↦ ok i
]

-- The handler of `initHandlers` for a command, if there is one
unfoldable pub handle_command : Env → Command → Message → Handler → Outcome Handler
handle_command env command msg i = elim command [
  | Command.nick ↦ ok (on_nick msg i)
  | Command.join ↦ on_join env msg i
  | Command.part ↦ on_part msg i
  | Command.kick ↦ ok (on_kick msg i)
  | Command.mode ↦ ok (on_mode msg i)
  | Command.privmsg ↦ on_message env msg i
  | Command.notice ↦ on_message env msg i
  | Command.quit ↦ ok (on_quit msg i)
  | Command.topic ↦ on_topic msg i
  | Command.error ↦ ok (on_error msg i)
  | Command.rpl_welcome ↦ on_info env msg i
  | Command.rpl_yourhost ↦ on_info env msg i
  | Command.rpl_created ↦ on_info env msg i
  | Command.rpl_isupport ↦ ok (on_features msg i)
  | Command.rpl_luserclient ↦ on_info env msg i
  | Command.rpl_luserop ↦ on_info env msg i
  | Command.rpl_luserunknown ↦ on_info env msg i
  | Command.rpl_luserchannels ↦ on_info env msg i
  | Command.rpl_luserme ↦ on_info env msg i
  | Command.rpl_whoisuser ↦ whois_user msg i
  | Command.rpl_whoisserver ↦ whois_server msg i
  | Command.rpl_whoischannels ↦ ok (whois_channels msg i)
  | Command.rpl_endofwhois ↦ ok (whois_end i)
  | Command.rpl_notopic ↦ no_topic msg i
  | Command.rpl_topic ↦ on_topic msg i
  | Command.rpl_endofnames ↦ names_end msg i
  | Command.rpl_motdstart ↦ ok (motd_start msg i)
  | Command.rpl_motd ↦ ok (on_motd msg i)
  | Command.rpl_endofmotd ↦ ok (motd_end i)
  | Command.rpl_list ↦ on_list msg i
  | Command.rpl_listend ↦ ok (list_end i)
  | Command.err_erroneusnickname ↦ ok (bad_nick i)
  | Command.err_forward ↦ ok (on_forward msg i)
  | _ ↦ ok i
]

-- `dispatchMessage`
unfoldable pub dispatch_message : Env → Message → Handler → Outcome Handler
unfolding report_error handle_command command_of
dispatch_message env msg i =
    report_error msg i >>= λ reported. handle_command env (command_of msg.command) msg reported

-- The case of `run` for the client's messages; `none` is that the channel is closed.
unfoldable pub run_message : Env → Option Message → Handler → Outcome Handler
unfolding dispatch_message
run_message env none i = ok (on_live (delete_network (host_of i)) i)
run_message env (some msg) i = dispatch_message env msg i

abbrev error_text : Option Bytes → Bytes
error_text none = []
error_text (some err) = err

-- The case of `run` for a change of the connection, but for the identd (in Identd) and the log
unfoldable pub run_connection : ConnectionState → Handler → Handler
run_connection change i =
    on_host (set_status change.connected (error_text change.error))
      (send (Response.connection_update (host_of i) change) i)

-- `formatIRCError`, with `unicode.IsLower` of the first character of the last parameter, if there is one
unfoldable pub format_irc_error : Option Bool → Message → Bytes
format_irc_error lower msg =
    let text = trim_suffix (last_param msg) (codes ".") in
    elim msg.params [
      | _ ∷ second ∷ _ ∷ _ ↦ elim lower [
        | none ↦ text
        | some b ↦ if b then second ++ codes " " ++ text else second ++ codes ": " ++ text
      ]
      | _ ↦ text
    ]
