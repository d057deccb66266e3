-- ===== src/Server/Websocket/Isolation.antt =====
-- What a request leaves alone: the clients and the networks of all hosts but its own.
use dispatch.Base.{
  ℕ, Bytes, Bool, true, false, List, [], ◌∷◌, ◌++◌, Option, none, some, codes, nat_eq, bytes_eq,
  if◌then◌else◌, Outcome, ok, panic, ◌>>=◌, ◌≡◌, ◌≢◌, refl,
}
use dispatch.Base.Int.{ℤ}
use dispatch.Irc.Client.{join_channels, topic, write_out}
use dispatch.Server.Json.{Response}
use dispatch.Server.Live.{History, State, network_of, send_json, send_messages, send_last_messages}
use dispatch.Server.Websocket.{
  Env, Request, World, answer_search, handle_request, on_channel_search, on_set_network_name,
  on_state, is_valid_network_name, rename_network, request_list, page_size,
}
use dispatch.Storage.Bolt.Messages.{Message}
use dispatch.Storage.ChannelIndex
use dispatch.Storage.ChannelIndex.{ChannelListItem, MapChannelListIndex, search_n}
use dispatch.Server.Websocket.Separation.{
  Keeps, Same, Same-refl, on_client-Same, on_connect-Same, on_reconnect-Same, on_part-Same,
  Keeps-quit, on_message-Same, rename_network-Same, request_list-Same,
}

-- The host that a request is for
abbrev pub host_of : Env → Request → Bytes
host_of env req = elim req [
  | Request.connect info ip ↦ env.lower info.host
  | Request.reconnect network skip_verify ↦ network
  | Request.join_all network channels ↦ network
  | Request.part network channels ↦ network
  | Request.quit network ↦ network
  | Request.message network to content ↦ network
  | Request.nick network fresh ↦ network
  | Request.set_topic network channel text ↦ network
  | Request.invite network user channel ↦ network
  | Request.kick network user channel ↦ network
  | Request.whois network user ↦ network
  | Request.away network text ↦ network
  | Request.raw network text ↦ network
  | Request.fetch_messages network channel next ↦ network
  | Request.set_network_name_to network name ↦ network
  | Request.channel_search network q start ↦ network
  | Request.open_dm network name ↦ network
  | Request.close_dm network name ↦ network
]

Same-if :
    (other : Bytes) (b : Bool) (w u v : World)
    → Same other w u
    → Same other w v
    → Same other w (if b then u else v)
Same-if other true w u v hu hv = hu
Same-if other false w u v hu hv = hv

send_messages-networks :
    (history : History) (network channel other : Bytes) (count : ℕ) (from : Bytes) (s : State)
    → network_of other (send_messages history network channel count from s) ≡ network_of other s
unfolding network_of send_messages
send_messages-networks history network channel other count from s =
    go (history network channel count from) refl
  where
    go :
        (page : List Message × Bool)
        → history network channel count from ≡ page
        → network_of other (send_messages history network channel count from s) ≡ network_of other s
    go ([], more) e = rw (e, send_messages) refl
    go (m ∷ ms, more) e = rw (e, send_messages) refl

send_last_messages-networks :
    (history : History) (network channel other : Bytes) (count : ℕ) (s : State)
    → network_of other (send_last_messages history network channel count s) ≡ network_of other s
unfolding network_of send_last_messages
send_last_messages-networks history network channel other count s =
    go (history network channel count []) refl
  where
    go :
        (page : List Message × Bool)
        → history network channel count [] ≡ page
        → network_of other (send_last_messages history network channel count s) ≡ network_of other s
    go ([], more) e = rw (e, send_last_messages) refl
    go (m ∷ ms, more) e = rw (e, send_last_messages) refl

answered-Keeps :
    (network q other : Bytes) (start : ℤ) (index : Option MapChannelListIndex) (needs_update : Bool)
    (w : World)
    → other ≢ network
    → Keeps other w (
        answer_search network q start index w >>= λ answered.
        ok (request_list network needs_update answered))
unfolding answer_search network_of send_json
answered-Keeps network q other start none needs_update w ne =
    request_list-Same network other needs_update w ne
answered-Keeps network q other start (some idx) needs_update w ne =
    go (search_n q start (page_size start) idx) refl
  where
    go :
        (found : Outcome (List ChannelListItem))
        → search_n q start (page_size start) idx ≡ found
        → Keeps other w (
            answer_search network q start (some idx) w >>= λ answered.
            ok (request_list network needs_update answered))
    go panic e = rw (e, answer_search) tt
    go (ok found) e =
        rw (e, answer_search)
          (request_list-Same network other needs_update
            (on_state (send_json (Response.channel_search network q start found)) w) ne)

-- A request that does not end the program leaves the clients and the live networks of all other hosts as they
-- are. What the store keeps is not part of this.
pub handle_request-Keeps :
    (env : Env) (req : Request) (w : World) (other : Bytes)
    → other ≢ host_of env req
    → Keeps other w (handle_request env req w)
unfolding handle_request on_channel_search network_of on_set_network_name
handle_request-Keeps env (Request.connect info ip) w other ne =
    on_connect-Same env info ip other w ne
handle_request-Keeps env (Request.reconnect network skip_verify) w other ne =
    on_reconnect-Same network other w
handle_request-Keeps env (Request.join_all network channels) w other ne =
    on_client-Same (join_channels channels) network other w ne
handle_request-Keeps env (Request.part network channels) w other ne =
    on_part-Same network other channels w ne
handle_request-Keeps env (Request.quit network) w other ne = Keeps-quit network other w ne
handle_request-Keeps env (Request.message network to content) w other ne =
    on_message-Same network to content other w ne
handle_request-Keeps env (Request.nick network fresh) w other ne =
    on_client-Same (write_out (codes "NICK " ++ fresh)) network other w ne
handle_request-Keeps env (Request.set_topic network channel text) w other ne =
    on_client-Same (topic channel (some text)) network other w ne
handle_request-Keeps env (Request.invite network user channel) w other ne =
    on_client-Same (write_out (codes "INVITE " ++ user ++ codes " " ++ channel)) network other w ne
handle_request-Keeps env (Request.kick network user channel) w other ne =
    on_client-Same (write_out (codes "KICK " ++ channel ++ codes " " ++ user)) network other w ne
handle_request-Keeps env (Request.whois network user) w other ne =
    on_client-Same (write_out (codes "WHOIS " ++ user)) network other w ne
handle_request-Keeps env (Request.away network text) w other ne =
    on_client-Same (write_out (codes "AWAY :" ++ text)) network other w ne
handle_request-Keeps env (Request.raw network text) w other ne =
    on_client-Same (write_out text) network other w ne
handle_request-Keeps env (Request.fetch_messages network channel next) w other ne =
    (refl, send_messages-networks env.history network channel other 200 next w.state)
handle_request-Keeps env (Request.set_network_name_to network name) w other ne =
    Same-if other (is_valid_network_name name) w (rename_network network name w) w
      (rename_network-Same network name other w ne) (Same-refl other w)
handle_request-Keeps env (Request.channel_search network q start) w other ne =
    let found = ChannelIndex.get network env.now w.indexes in
    answered-Keeps network q other start found.0 found.1 (record w { indexes = found.2 }) ne
handle_request-Keeps env (Request.open_dm network name) w other ne =
    (refl, send_last_messages-networks env.history network name other 50 w.state)
handle_request-Keeps env (Request.close_dm network name) w other ne = (refl, refl)
