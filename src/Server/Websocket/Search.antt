-- ===== src/Server/Websocket/Search.antt =====
-- Which requests of the web client make the server panic.
use dispatch.Base.{
  ℕ, Bytes, Bool, true, false, List, Option, none, some, Outcome, ok, panic, ◌>>=◌, ◌≡◌, refl, ap,
  ◌∙◌,
}
use dispatch.Base.{Bytes, Bool-cases, inl, inr, lookup, bytes_eq}
use dispatch.Irc.Client.{Client}
use dispatch.Base.Int.{ℤ, pos, negsuc}
use dispatch.Server.Handler.Params.{is_panic}
use dispatch.Server.Websocket.{
  Env, Request, on_quit, quit_client, World, answer_search, handle_request, on_channel_search,
  page_size, request_list,
}
use dispatch.Storage.ChannelIndex
use dispatch.Storage.ChannelIndex.{ChannelListItem, MapChannelListIndex, search_n}
use dispatch.Storage.ChannelIndex.Laws.{page_of, search_n_lem}

abbrev pub is_negative : ℤ → Bool
is_negative (pos n) = false
is_negative (negsuc n) = true

-- A search from a negative start, when there is an index
abbrev pub is_bad_search : Option MapChannelListIndex → ℤ → Bool
is_bad_search none start = false
is_bad_search (some idx) start = is_negative start

-- Whether `quit` of the client, if there is one, is closed
abbrev pub is_closed : Option Client → Bool
is_closed none = false
is_closed (some c) = c.quit

abbrev pub is_bad : Env → Request → World → Bool
is_bad env req w = elim req [
  | Request.channel_search network q start ↦
      is_bad_search (ChannelIndex.get network env.now w.indexes).0 start
  | Request.quit network ↦ is_closed (lookup network w.clients)
  | _ ↦ false
]

is_panic-page_of :
    (start : ℤ) (n : ℕ) (l : List ChannelListItem)
    → is_panic (page_of start n l) ≡ is_negative start
is_panic-page_of (pos start) n l = refl
is_panic-page_of (negsuc start) n l = refl

is_panic-then_two {ℓ} :
    {A : Type ℓ} (o : Outcome A) (f : A → World) (g : World → World)
    → is_panic ((o >>= λ a. ok (f a)) >>= λ v. ok (g v)) ≡ is_panic o
is_panic-then_two (ok a) f g = refl
is_panic-then_two panic f g = refl

is_panic-answer_search :
    (network q : Bytes) (start : ℤ) (index : Option MapChannelListIndex) (w : World)
    (g : World → World)
    → is_panic (answer_search network q start index w >>= λ v. ok (g v)) ≡ is_bad_search index start
unfolding answer_search
is_panic-answer_search network q start none w g = refl
is_panic-answer_search network q start (some idx) w g =
    is_panic-then_two (search_n q start (page_size start) idx) _ g
    ∙ ap (λ o. is_panic o) (search_n_lem q start (page_size start) idx)
    ∙ is_panic-page_of start (page_size start) (ChannelIndex.search q idx)

is_panic-on_quit :
    (network : Bytes) (w : World)
    → is_panic (on_quit network w) ≡ is_closed (lookup network w.clients)
unfolding on_quit quit_client
is_panic-on_quit network w = go (lookup network w.clients) refl
  where
    go :
        (found : Option Client)
        → lookup network w.clients ≡ found
        → is_panic (on_quit network w) ≡ is_closed (lookup network w.clients)
    go none e = rw (e, on_quit) refl
    go (some c) e = elim (Bool-cases c.quit) [
      | inl shut ↦ rw (e, on_quit, shut) refl
      | inr ajar ↦ rw (e, on_quit, ajar) refl
    ]

-- A request panics exactly when it is a channel search from a negative start in a network that has an index,
-- or a quit of a client that was told to quit already, as by an ERROR of its server.
pub handle_request-panic_iff :
    (env : Env) (req : Request) (w : World) → is_panic (handle_request env req w) ≡ is_bad env req w
unfolding handle_request on_channel_search
handle_request-panic_iff env (Request.channel_search network q start) w =
    let found = ChannelIndex.get network env.now w.indexes in
    is_panic-answer_search network q start found.0 (record w { indexes = found.2 })
      (request_list network found.1)
handle_request-panic_iff env (Request.quit network) w = is_panic-on_quit network w
handle_request-panic_iff env _ w = refl
