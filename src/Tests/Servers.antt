-- ===== src/Tests/Servers.antt =====
-- The server's handlers, downloads and the ident server at concrete inputs.
use dispatch.Base.{
  Bytes, true, false, ◌||◌, List, [], ◌∷◌, ◌++◌, none, some, codes, Lacks, Option, ltb, is_empty,
  ok, map, split, ◌≡◌, ◌≢◌, refl, arith,
}
use dispatch.Base.Int.{pos, negsuc, digits, atoi}
use dispatch.Server.Handler.Identd.{Idents, run_identd, reply_to-run_identd_lost}
use dispatch.Ident.{Address, key_of, reply_to, without_spaces, answer}
use dispatch.Ident.Laws.{added, after, answer-after, line_answer, current}
use dispatch.Irc.Client.{Config, new_client}
use dispatch.Irc.Const.{command_of}
use dispatch.Irc.Dcc.{Download, download, ended, int_to_ip, uint64_bytes}
use dispatch.Irc.Dcc.Laws.{Complete, address_of, download-complete, got, low_bits, split-int_to_ip}
use dispatch.Irc.Message.{Message, Meta, last_of, last_param}
use dispatch.Server.Handler
use dispatch.Server.Handler.{Handler, host_of, send}
use dispatch.Server.Handler.Bursts.{dispatch_all, motd_burst}
use dispatch.Server.Handler.Dispatch.{dispatch_message}
use dispatch.Server.Handler.Listing.{Finds, finish_index-search, item_of, list_burst, listed}
use dispatch.Server.Handler.Params.{dispatch_message-panic_iff, is_panic, params_of}
use dispatch.Server.Handler.Replies.{finish_index, no_motd, no_whois}
use dispatch.Server.Index.{tab_of_path}
use dispatch.Server.Index.Tabs.{tab_of_path_lem}
use dispatch.Server.Json.{Response}
use dispatch.Server.Live.{History, new_state}
use dispatch.Server.Websocket
use dispatch.Server.Websocket.{Request, World, handle_request}
use dispatch.Server.Websocket.Isolation.{handle_request-Keeps}
use dispatch.Server.Websocket.Separation.{Keeps}
use dispatch.Server.Websocket.Search.{handle_request-panic_iff, is_bad}
use dispatch.Storage.ChannelIndex.{ChannelListItem, index_key}
use dispatch.Storage.ChannelIndex.Laws.{matches}

abbrev config : Config
config = record {
  host = codes "n";
  port = codes "6667";
  tls = false;
  has_certificate = false;
  server_password = [];
  nick = codes "ann";
  username = codes "ann";
  realname = codes "ann";
  sasl_mechanisms = none;
  account = [];
  password = [];
  auto_ctcp = false;
  version = [];
  source = [];
  handle_nick_in_use = none;
}

abbrev no_history : History
no_history network channel count from = ([], false)

abbrev handler_env : Handler.Env
handler_env = record { id = codes "id"; now = 5; history = no_history; identd = false }

abbrev handler : Handler
handler = record {
  client = new_client config;
  state = new_state (codes "ann");
  whois = no_whois;
  motd = no_motd;
  list_buffer = some (record { channels = []; m = [] });
  indexes = [];
}

abbrev reply : Bytes → List Bytes → Message
reply command params = record {
  tags = [];
  sender = codes "irc.example";
  ident = [];
  host = [];
  command = command;
  params = params;
  meta = Meta.no_meta;
}

dispatch_message-panic_iff_example :
    is_panic (dispatch_message handler_env (reply (codes "JOIN") []) handler) ≡ (
      is_empty (codes "JOIN")
      || ltb 0 (params_of (command_of (codes "JOIN")) (reply (codes "JOIN") []) handler))
dispatch_message-panic_iff_example =
    dispatch_message-panic_iff handler_env (reply (codes "JOIN") []) handler

abbrev title : Message
title = reply (codes "375") (codes "ann" ∷ codes "Hello" ∷ [])

abbrev line : Message
line = reply (codes "372") (codes "ann" ∷ codes "Welcome" ∷ [])

abbrev end_of_motd : Message
end_of_motd = reply (codes "376") (codes "ann" ∷ codes "End" ∷ [])

motd_burst_example :
    dispatch_all handler_env (title ∷ (line ∷ []) ++ end_of_motd ∷ []) handler
    ≡ ok
        (record (send
          (Response.motd (record {
            network = host_of handler;
            title = last_param title;
            content = last_param line ∷ [];
          }))
          handler) { motd = no_motd })
motd_burst_example =
    motd_burst handler_env title end_of_motd (line ∷ []) handler refl refl (refl, tt) refl

abbrev entry : Message
entry = reply (codes "322") (codes "ann" ∷ codes "#go" ∷ codes "3" ∷ codes "Go" ∷ [])

abbrev channel_go : ChannelListItem
channel_go = record { name = codes "#go"; user_count = pos 3; topic = codes "Go" }

entry_item : item_of entry ≡ ok channel_go
unfolding last_param last_of atoi
entry_item = refl

list_burst_example :
    dispatch_all handler_env ((entry ∷ []) ++ reply (codes "323") [] ∷ []) handler
    ≡ ok (listed (channel_go ∷ []) handler)
list_burst_example =
    list_burst handler_env (entry ∷ []) (reply (codes "323") []) handler (channel_go ∷ []) [] refl
      (refl, entry_item, tt) refl

abbrev same : List ChannelListItem → List ChannelListItem
same chs = chs

abbrev keep : Bytes → Bytes
keep s = s

finish_index-search_example :
    Finds
      (codes "n")
      (finish_index keep same 5 (codes "n") (channel_go ∷ []) [])
      (codes "g")
      (matches (index_key keep) (codes "g") (channel_go ∷ []))
finish_index-search_example =
    finish_index-search keep same (λ chs. refl) 5 (codes "n") channel_go [] [] (codes "g")

abbrev settings : Websocket.Settings
settings = record {
  auto_ctcp = false;
  hex_ip = false;
  default_host = [];
  default_server_password = [];
  tag = [];
  commit = [];
}

abbrev ws_env : Websocket.Env
ws_env = record {
  now = 5;
  history = no_history;
  certificate = false;
  hex = keep;
  lower = keep;
  settings = settings;
}

abbrev world : World
world = record {
  state = new_state (codes "ann");
  clients = (codes "n", new_client config) ∷ [];
  indexes = [];
  quits = [];
  reconnects = [];
}

other_host : codes "n" ≢ codes "m"
other_host h = ground (arith, h)

handle_request-Keeps_example :
    Keeps (codes "n") world (handle_request ws_env (Request.quit (codes "m")) world)
handle_request-Keeps_example =
    handle_request-Keeps ws_env (Request.quit (codes "m")) world (codes "n") other_host

abbrev from_behind : Request
from_behind = Request.channel_search (codes "n") (codes "g") (negsuc 0)

handle_request-panic_iff_example :
    is_panic (handle_request ws_env from_behind world) ≡ is_bad ws_env from_behind world
handle_request-panic_iff_example = handle_request-panic_iff ws_env from_behind world

abbrev own : Address
own = record { host = codes "10.0.0.1"; port = codes "40000" }

abbrev peer : Address
peer = record { host = codes "10.0.0.2"; port = codes "6667" }

answer-after_example :
    answer (some peer) (codes "40000, 6667") (after (added own peer (codes "ann") ∷ []))
    ≡ line_answer peer
        (codes "40000, 6667")
        (λ key. current key (added own peer (codes "ann") ∷ []))
answer-after_example = answer-after (added own peer (codes "ann") ∷ []) peer (codes "40000, 6667")

abbrev finished : Download
finished = record { contents = codes "hi" ++ []; acks = uint64_bytes 2 ∷ []; complete = true }

finished_run : download 0 [] [] (got (codes "hi") ∷ ended ∷ []) ≡ some finished
unfolding download
finished_run = refl

download-complete_example : Complete 0 [] [] (got (codes "hi") ∷ ended ∷ []) finished
download-complete_example =
    download-complete (got (codes "hi") ∷ ended ∷ []) finished finished_run refl

split-int_to_ip_example :
    address_of (map digits (split (int_to_ip (pos 3232235777)) b'.'))
    ≡ some (low_bits (pos 3232235777))
split-int_to_ip_example = split-int_to_ip (pos 3232235777)

abbrev unchanged : Bytes → Option Bytes
unchanged s = some s

slashless : Lacks b'/' (codes "a")
slashless = ground arith

slashless_network : Lacks b'/' (codes "n")
slashless_network = ground arith

tab_of_path_lem_example :
    tab_of_path unchanged (b'/' ∷ codes "n/a") none
    ≡ some (record { network = codes "n"; name = codes "a" })
tab_of_path_lem_example =
    tab_of_path_lem unchanged none b'n' b'a' [] [] (codes "a") slashless_network slashless refl

abbrev idents : Idents
idents = record { local_addr = none; remote_addr = none; server = [] }

ports-of-query : without_spaces (codes "40000, 6667") ≡ key_of own peer
unfolding without_spaces
ports-of-query = refl

reply_to-run_identd_lost_example :
    reply_to
      (some peer)
      (codes "40000, 6667")
      (run_identd none none
        (codes "ann")
        false
        (run_identd (some own) (some peer) (codes "ann") true idents)).server
    ≡ none
reply_to-run_identd_lost_example =
    reply_to-run_identd_lost own peer peer none none (codes "ann") (codes "40000, 6667") idents
      ports-of-query
