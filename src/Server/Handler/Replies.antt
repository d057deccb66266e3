-- ===== src/Server/Handler/Replies.antt =====
-- server/irc_handler.go: the handlers of the replies that are collected before they are sent, and of errors.
use dispatch.Base.{
  ℕ, Bytes, false, List, [], ◌∷◌, ◌++◌, Option, none, some, codes, ◌==◌, nat_eq, bytes_eq,
  if◌then◌else◌, Outcome, ok, ◌>>=◌, is_empty, at, split, trim_right,
}
use dispatch.Base.Int.{atoi}
use dispatch.Irc.Message.{Message, last_param}
use dispatch.Server.Handler.{Handler, host_of, on_host, on_live, send, start, string_list_meta}
use dispatch.Server.Json.{Response, Task, WhoisReply, Motd}
use dispatch.Server.Live.{flag, set_flag}
use dispatch.Storage.ChannelIndex
use dispatch.Storage.ChannelIndex.{ChannelListItem, Manager, MapChannelListIndex, new_index}
use dispatch.Storage.Network.{set_channel_topic}

abbrev pub no_whois : WhoisReply
no_whois = record { nick = []; username = []; host = []; realname = []; server = []; channels = [] }

abbrev pub no_motd : Motd
no_motd = record { network = []; title = []; content = [] }

unfoldable pub whois_user : Message → Handler → Outcome Handler
whois_user msg i = at msg.params 1 >>= λ nick. at msg.params 2 >>= λ user.
    at msg.params 3 >>= λ host. at msg.params 5 >>= λ name. ok (record i {
      whois = record i.whois { nick = nick; username = user; host = host; realname = name };
    })

unfoldable pub whois_server : Message → Handler → Outcome Handler
whois_server msg i =
    at msg.params 2 >>= λ server. ok (record i { whois = record i.whois { server = server } })

unfoldable pub whois_channels : Message → Handler → Handler
whois_channels msg i = record i {
  whois = record i.whois {
    channels = i.whois.channels ++ split (trim_right (last_param msg) b' ') b' ';
  };
}

unfoldable pub whois_end : Handler → Handler
whois_end i =
    let sent = if is_empty i.whois.nick then i else send (Response.whois i.whois) i in
    record sent { whois = no_whois }

-- The end of `topic`: the response, and the topic of the live channel
abbrev show_topic : Bytes → Bytes → Bytes → Handler → Handler
show_topic channel text nick i =
    on_host (set_channel_topic text channel) (send (Response.topic (host_of i) channel text nick) i)

unfoldable pub on_topic : Message → Handler → Outcome Handler
on_topic msg i =
    if msg.command == codes "TOPIC"
    then (at msg.params 0 >>= λ channel. ok (
        show_topic channel (last_param msg) msg.sender (
          start
            (Task.log_event (host_of i) (codes "topic") (msg.sender ∷ last_param msg ∷ [])
              (channel ∷ []))
            i)))
    else (at msg.params 1 >>= λ channel. ok (show_topic channel (last_param msg) [] i))

unfoldable pub no_topic : Message → Handler → Outcome Handler
no_topic msg i = at msg.params 1 >>= λ channel. ok (show_topic channel [] [] i)

unfoldable pub names_end : Message → Handler → Outcome Handler
unfolding string_list_meta
names_end msg i = at msg.params 1 >>= λ channel.
    ok (send (Response.users (host_of i) channel (string_list_meta msg)) i)

unfoldable pub motd_start : Message → Handler → Handler
motd_start msg i = record i { motd = record i.motd { network = host_of i; title = last_param msg } }

unfoldable pub on_motd : Message → Handler → Handler
on_motd msg i = record i {
  motd = record i.motd { content = i.motd.content ++ last_param msg ∷ [] };
}

unfoldable pub motd_end : Handler → Handler
motd_end i = record (send (Response.motd i.motd) i) { motd = no_motd }

abbrev pub update_key : Handler → Bytes
update_key i = codes "update_chanlist_" ++ host_of i

-- The buffer that `list` adds to; `none` is nil.
unfoldable pub buffer_for : Handler → Option MapChannelListIndex
buffer_for i = elim i.list_buffer [
  | some idx ↦ some idx
  | none ↦ if flag (update_key i) i.state then some new_index else none
]

unfoldable pub on_list : Message → Handler → Outcome Handler
unfolding buffer_for
on_list msg i = elim (buffer_for i) [
  | none ↦ ok i
  | some idx ↦ at msg.params 2 >>= λ count. at msg.params 1 >>= λ name. ok (record i {
    list_buffer = some (
        ChannelIndex.add (record { name = name; user_count = atoi count; topic = last_param msg })
          idx);
  })
]

-- `listEnd`; the index is finished and set by a task.
unfoldable pub list_end : Handler → Handler
list_end i = elim i.list_buffer [
  | none ↦ i
  | some idx ↦
      record (start (Task.finish_index (host_of i) idx.channels)
        (on_live (set_flag (update_key i) false) i)) { list_buffer = none }
]

-- What that task does, with `strings.ToLower` and `sort.Sort`, at a time
unfoldable pub finish_index :
    (Bytes → Bytes)
    → (List ChannelListItem → List ChannelListItem)
    → ℕ
    → Bytes
    → List ChannelListItem
    → Manager
    → Manager
finish_index lower sort now host channels indexes =
    ChannelIndex.set host
      (ChannelIndex.finish lower sort (record new_index { channels = channels })) now indexes

unfoldable pub bad_nick : Handler → Handler
bad_nick i = send (Response.nick_fail (host_of i)) i

unfoldable pub on_forward : Message → Handler → Handler
on_forward msg i = elim msg.params [
  | _ ∷ old ∷ fresh ∷ _ ↦ send (Response.channel_forward (host_of i) old fresh) i
  | _ ↦ i
]

unfoldable pub on_error : Message → Handler → Handler
on_error msg i = send (Response.error (host_of i) [] (last_param msg)) i
