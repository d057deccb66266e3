-- ===== src/Server/Live.antt =====
-- server/state.go: `State`, the live state of one user. Each access that the lock guards is a definition of its
-- own. A method with several accesses is their sequence, as one goroutine makes them when no other comes
-- between; what others do between them is not modelled. The timer is kept as whether it runs and whether its
-- channel holds a time that `run` has not received; what is sent on `reset` and on `broadcast` waits in
-- lists for `run`.
use dispatch.Base.{
  ℕ, Bytes, Bool, true, false, ◌&&◌, List, [], ◌∷◌, ◌++◌, Option, none, some, bytes_eq, ◌==◌,
  if◌then◌else◌, nat_eq, length, lookup, insert, delete,
}
use dispatch.Irc.Dcc.{DccSend}
use dispatch.Server.Json.{Response, Task, messages}
use dispatch.Storage.Bolt.Messages
use dispatch.Storage.Network.{LiveNetwork}

-- `stateData` holds Boolean values and texts. `ws` has the address of each connection with what was sent
-- on its `out`; `expired` says that `run` has returned.
pub record State : Type 0 where
  pub networks : List (Bytes × LiveNetwork)
  pub pending_dcc : List (Bytes × DccSend)
  pub ws : List (Bytes × List Response)
  pub broadcast : List Response
  pub resets : List Bool
  pub timer : Bool
  pub fired : Bool
  pub expired : Bool
  pub flags : List (Bytes × Bool)
  pub texts : List (Bytes × Bytes)
  pub username : Bytes
  pub tasks : List Task

-- `NewState`
unfoldable pub new_state : Bytes → State
new_state username = record {
  networks = [];
  pending_dcc = [];
  ws = [];
  broadcast = [];
  resets = [];
  timer = true;
  fired = false;
  expired = false;
  flags = [];
  texts = [];
  username = username;
  tasks = [];
}

-- `go f()`
abbrev pub go_task : Task → State → State
go_task t s = record s { tasks = s.tasks ++ t ∷ [] }

-- `network`
unfoldable pub network_of : Bytes → State → Option LiveNetwork
network_of host s = lookup host s.networks

-- A change of the network at a host, if there is one
abbrev pub on_network : (LiveNetwork → LiveNetwork) → Bytes → State → State
on_network f host s = elim (lookup host s.networks) [
  | none ↦ s
  | some n ↦ record s { networks = insert host (f n) s.networks }
]

-- `s.reset <- 0` is `false`, and `s.reset <- AnonymousUserExpiration` is `true`.
abbrev send_reset : Bool → State → State
send_reset runs s = record s { resets = s.resets ++ runs ∷ [] }

-- The access of `setNetwork` under the lock, and all of it
unfoldable pub insert_network : Bytes → LiveNetwork → State → State
insert_network host n s = record s { networks = insert host n s.networks }

unfoldable pub set_network : Bytes → LiveNetwork → State → State
unfolding insert_network
set_network host n s = send_reset false (insert_network host n s)

-- `numIRC` and `numWS`: how many there are when the lock is held
abbrev pub num_irc : State → ℕ
num_irc s = length s.networks

abbrev pub num_ws : State → ℕ
num_ws s = length s.ws

-- `resetExpirationIfEmpty`, from the two numbers that it has read
unfoldable pub reset_if_empty : (irc ws : ℕ) → State → State
reset_if_empty irc ws s = record s {
  resets = if irc == 0 && ws == 0 then s.resets ++ true ∷ [] else s.resets;
}

-- The access of `deleteNetwork` under the lock, and all of it
unfoldable pub erase_network : Bytes → State → State
erase_network host s = record s { networks = delete host s.networks }

unfoldable pub delete_network : Bytes → State → State
unfolding erase_network reset_if_empty
delete_network host s =
    let left = erase_network host s in reset_if_empty (num_irc left) (num_ws left) left

-- The access of `setWS` under the lock, and all of it
unfoldable pub insert_ws : Bytes → State → State
insert_ws addr s = record s { ws = insert addr [] s.ws }

unfoldable pub set_ws : Bytes → State → State
unfolding insert_ws
set_ws addr s = send_reset false (insert_ws addr s)

-- The access of `deleteWS` under the lock, and all of it
unfoldable pub erase_ws : Bytes → State → State
erase_ws addr s = record s { ws = delete addr s.ws }

unfoldable pub delete_ws : Bytes → State → State
unfolding erase_ws reset_if_empty
delete_ws addr s = let left = erase_ws addr s in reset_if_empty (num_irc left) (num_ws left) left

-- `pendingDCC`
unfoldable pub pending_dcc_of : Bytes → State → Option DccSend
pending_dcc_of file s = lookup file s.pending_dcc

-- `setPendingDCC`
unfoldable pub set_pending_dcc : Bytes → DccSend → State → State
set_pending_dcc file pack s = record s { pending_dcc = insert file pack s.pending_dcc }

-- `deletePendingDCC`
unfoldable pub delete_pending_dcc : Bytes → State → State
delete_pending_dcc file s = record s { pending_dcc = delete file s.pending_dcc }

-- `sendJSON`
unfoldable pub send_json : Response → State → State
send_json res s = record s { broadcast = s.broadcast ++ res ∷ [] }

-- `Bool` and `Set` of a Boolean value
unfoldable pub flag : Bytes → State → Bool
flag key s = elim (lookup key s.flags) [ none ↦ false | some b ↦ b ]

unfoldable pub set_flag : Bytes → Bool → State → State
set_flag key b s = record s { flags = insert key b s.flags }

-- `String`
unfoldable pub text_of : Bytes → State → Bytes
text_of key s = elim (lookup key s.texts) [ none ↦ [] | some t ↦ t ]

-- `messages[0].ID`, if there are more
abbrev next_of : Bool → Messages.Message → Bytes
next_of more m = if more then m.id else []

abbrev send_page : Bytes → Bytes → Bool → List Messages.Message × Bool → State → State
send_page network channel prepend ([], more) s = s
send_page network channel prepend (m ∷ ms, more) s = record s {
  broadcast = s.broadcast ++ messages network channel (m ∷ ms) prepend (next_of more m) ∷ [];
}

-- The message log of the user: network, channel, count and the id to start before
abbrev pub History : Type 0
History = Bytes → Bytes → ℕ → Bytes → List Messages.Message × Bool

-- `sendLastMessages`
unfoldable pub send_last_messages : History → Bytes → Bytes → ℕ → State → State
send_last_messages history network channel count s =
    send_page network channel false (history network channel count []) s

-- `sendMessages`
unfoldable pub send_messages : History → Bytes → Bytes → ℕ → Bytes → State → State
send_messages history network channel count from s =
    send_page network channel true (history network channel count from) s

-- `ws.out <- res` for each connection
unfoldable pub send_all : Response → List (Bytes × List Response) → List (Bytes × List Response)
send_all res [] = []
send_all res ((addr, out) ∷ rest) = (addr, out ++ res ∷ []) ∷ send_all res rest

-- The cases of the `select` in `run`: a response to broadcast, the time from the timer, a change of the timer.
-- `none` when the case is not ready.
unfoldable pub run_broadcast : State → Option State
unfolding send_all
run_broadcast s = elim s.broadcast [
  | [] ↦ none
  | res ∷ rest ↦ some (record s { broadcast = rest; ws = send_all res s.ws })
]

-- The timer ends: its channel, which has room for one time, is filled.
unfoldable pub fire_timer : State → Option State
fire_timer s = if s.timer then some (record s { timer = false; fired = true }) else none

unfoldable pub run_expiration : State → Option State
run_expiration s = if s.fired then some (record s { fired = false; expired = true }) else none

-- `Stop` and `Reset` leave a time that is in the channel there.
unfoldable pub run_reset : State → Option State
run_reset s = elim s.resets [
  | [] ↦ none
  | runs ∷ rest ↦ some (record s { resets = rest; timer = runs })
]
