-- ===== src/Server/Handler/Downloads.antt =====
-- server/irc_handler.go: the offers of files and the progress of downloads; server/irc.go: the nick that is
-- tried next. Sizes, speeds and times come as text, since the source formats floating-point numbers.
use dispatch.Base.{Bytes, Bool, true, false, [], ◌++◌, codes, ◌==◌, bytes_eq, if◌then◌else◌}
use dispatch.Irc.Dcc.{DccSend}
use dispatch.Irc.Message.{Message}
use dispatch.Server.Handler.{Handler, host_of, on_live, send, start}
use dispatch.Server.Json.{ChatMessage, Response, Task}
use dispatch.Server.Live.{delete_pending_dcc, set_pending_dcc, text_of}

-- The address of a file in the user's downloads
abbrev pub download_url : Bytes → Handler → Bytes
download_url file i =
    text_of (codes "scheme") i.state
    ++ codes "://"
    ++ text_of (codes "host") i.state
    ++ codes "/downloads/"
    ++ i.state.username
    ++ codes "/"
    ++ file

-- `receiveDCCSend`, with the settings `Enabled` and `Autoget.Enabled`; a download is made outside of the state.
unfoldable pub receive_dcc_send : Bool → Bool → DccSend → Message → Handler → Handler
receive_dcc_send enabled autoget pack msg i =
    if enabled
    then if autoget
      then i
      else send
          (Response.dcc_send (host_of i) msg.sender pack.file pack.length
            (download_url pack.file i))
          (on_live (set_pending_dcc pack.file pack) i)
    else i

-- Its end, when the offer has been open for long enough
unfoldable pub expire_dcc_send : DccSend → Handler → Handler
expire_dcc_send pack i = on_live (delete_pending_dcc pack.file) i

-- `DownloadProgress`, as `run` tells the cases apart
pub data Progress : Type 0 where
  download_failed : (file err : Bytes) → Progress
  download_finished : (file : Bytes) → Progress
  download_started : (file : Bytes) → Progress
  download_running : (file percent speed remaining seconds : Bytes) → Progress

-- `sendDCCInfo`, whose log also opens the messages of the sender
unfoldable pub send_dcc_info : Bytes → Bool → Handler → Handler
send_dcc_info text log i =
    let msg : ChatMessage = record {
      id = [];
      network = host_of i;
      sender = codes "@dcc";
      to = [];
      content = text;
    } in
    let sent = send (Response.pm msg) i in
    if log
    then start (Task.log_message msg) (start (Task.add_open_dm (host_of i) (codes "@dcc")) sent)
    else sent

-- The case of `run` for the progress of a download
unfoldable pub run_progress : Progress → Handler → Handler
unfolding send_dcc_info
run_progress (download_failed file err) i =
    send_dcc_info (file ++ codes ": Download failed (" ++ err ++ codes ")") true i
run_progress (download_finished file) i =
    send_dcc_info (codes "Download finished, get it here: " ++ download_url file i) true i
run_progress (download_started file) i = send_dcc_info (file ++ codes ": Starting download") true i
run_progress (download_running file percent speed remaining seconds) i =
    send_dcc_info
      (file
        ++ codes ": "
        ++ percent
        ++ codes "%, "
        ++ speed
        ++ codes ", "
        ++ remaining
        ++ codes " remaining, "
        ++ seconds
        ++ codes "s left")
      false i

-- The handler of `createNickInUseHandler`
unfoldable pub nick_in_use : Bytes → Handler → Bytes × Handler
nick_in_use nick i =
    let fresh = nick ++ codes "_" in
    let failed = if fresh == i.client.nick then send (Response.nick_fail (host_of i)) i else i in
    (
      fresh,
      send
          (Response.error (host_of i) [] (
            codes "Nickname "
            ++ nick
            ++ codes " is unavailable, trying "
            ++ fresh
            ++ codes " instead"))
          failed,
    )
