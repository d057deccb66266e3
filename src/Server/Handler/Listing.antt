-- ===== src/Server/Handler/Listing.antt =====
-- The list of channels, from the replies to the index that the searches use.
use dispatch.Base.{
  ℕ, suc, Bytes, false, List, [], ◌∷◌, ◌++◌, Option, none, some, codes, nat_eq, bytes_eq, bytes_beq,
  bytes_beq_iff, Outcome, ok, panic, ◌>>=◌, at, is_empty, length, ◌≡◌, refl, sym, ap, ◌∙◌, arith,
  append-nil, append_assoc, lookup, lookup-insert,
}
use dispatch.Base.Int.{atoi}
use dispatch.Irc.Const.{command_of}
use dispatch.Irc.Message.{Message, last_param}
use dispatch.Server.Handler.{Env, Handler, host_of, on_live, start}
use dispatch.Server.Handler.Bursts.{dispatch_all, dispatch_all-append, dispatch_reply}
use dispatch.Server.Handler.Dispatch.{handle_command, dispatch_message}
use dispatch.Server.Handler.Replies.{buffer_for, finish_index, list_end, on_list, update_key}
use dispatch.Server.Json.{Task}
use dispatch.Server.Live.{set_flag}
use dispatch.Storage.ChannelIndex
use dispatch.Storage.ChannelIndex.{
  ChannelListItem, Managed, Manager, MapChannelListIndex, add, index_key, index_all, search,
}
use dispatch.Storage.ChannelIndex.Laws.{matches, search-index_all}

-- The entry of a reply
abbrev pub item_of : Message → Outcome ChannelListItem
item_of m = at m.params 2 >>= λ count. at m.params 1 >>= λ name.
    ok (record { name = name; user_count = atoi count; topic = last_param m })

-- Messages that list these channels, one each
abbrev pub Lists : List Message → List ChannelListItem → Type 0
Lists [] [] = Unit
Lists (m ∷ ms) (item ∷ items) = (m.command ≡ codes "322") × (item_of m ≡ ok item) × Lists ms items
Lists _ _ = ⊥

abbrev with_buffer : List ChannelListItem → List (Bytes × List ChannelListItem) → Handler → Handler
with_buffer channels m i = record i { list_buffer = some (record { channels = channels; m = m }) }

then_item {ℓ κ} :
    {A : Type ℓ} {B : Type κ} (o p : Outcome Bytes) (f : Bytes → Bytes → A) (g : A → B)
    → (o >>= λ count. p >>= λ name. ok (g (f count name)))
      ≡ ((o >>= λ count. p >>= λ name. ok (f count name)) >>= λ a. ok (g a))
then_item (ok count) (ok name) f g = refl
then_item (ok count) panic f g = refl
then_item panic p f g = refl

item_line :
    (env : Env) (msg : Message) (i : Handler) (item : ChannelListItem)
    (channels : List ChannelListItem)
    → msg.command ≡ codes "322"
    → item_of msg ≡ ok item
    → dispatch_message env msg (with_buffer channels [] i)
      ≡ ok (with_buffer (channels ++ item ∷ []) [] i)
unfolding handle_command on_list add buffer_for
item_line env msg i item channels hc hi =
    dispatch_reply env msg (with_buffer channels [] i) (codes "22") hc
    ∙ unfold command_of bytes_beq in
      (then_item (at msg.params 2) (at msg.params 1) (λ count. λ name. item_from count name)
          (λ item. with_buffer (channels ++ item ∷ []) [] i)
        ∙ ap (λ o. o >>= λ item. ok (with_buffer (channels ++ item ∷ []) [] i)) hi)
  where
    item_from : Bytes → Bytes → ChannelListItem
    item_from count name = record { name = name; user_count = atoi count; topic = last_param msg }

item_lines :
    (env : Env) (ms : List Message) (i : Handler) (items channels : List ChannelListItem)
    → Lists ms items
    → dispatch_all env ms (with_buffer channels [] i) ≡ ok (with_buffer (channels ++ items) [] i)
item_lines env [] i [] channels h = ap (λ l. ok (with_buffer l [] i)) (sym (append-nil channels))
item_lines env [] i (item ∷ items) channels h = absurd h
item_lines env (m ∷ ms) i [] channels h = absurd h
item_lines env (m ∷ ms) i (item ∷ items) channels (hc, hi, rest) =
    ap (λ o. o >>= dispatch_all env ms) (item_line env m i item channels hc hi)
    ∙ item_lines env ms i items (channels ++ item ∷ []) rest
    ∙ ap (λ l. ok (with_buffer l [] i)) (append_assoc channels (item ∷ []) items)

end_line :
    (env : Env) (end : Message) (i : Handler)
    → end.command ≡ codes "323"
    → dispatch_message env end i ≡ ok (list_end i)
unfolding handle_command
end_line env end i e = dispatch_reply env end i (codes "23") e ∙ unfold command_of bytes_beq in refl

-- The handler behind the end of a list: the list is handed over to be indexed, and is no longer asked for.
abbrev pub listed : List ChannelListItem → Handler → Handler
listed items i =
    record (start (Task.finish_index (host_of i) items)
      (on_live (set_flag (update_key i) false) i)) { list_buffer = none }

-- While a list is collected, the replies that list some channels and then its end hand over exactly these
-- channels, in their order, behind those that were collected before.
pub list_burst :
    (env : Env) (ms : List Message) (end : Message) (i : Handler)
    (items before : List ChannelListItem)
    → i.list_buffer ≡ some (record { channels = before; m = [] })
    → Lists ms items
    → end.command ≡ codes "323"
    → dispatch_all env (ms ++ end ∷ []) i ≡ ok (listed (before ++ items) i)
unfolding list_end
list_burst env ms end i items before hb hl he =
    ap (λ b. dispatch_all env (ms ++ end ∷ []) (record i { list_buffer = b })) hb
    ∙ dispatch_all-append env ms (end ∷ []) (with_buffer before [] i)
    ∙ ap (λ o. o >>= dispatch_all env (end ∷ [])) (item_lines env ms i items before hl)
    ∙ ap (λ o. o >>= dispatch_all env []) (end_line env end (with_buffer (before ++ items) [] i) he)

-- What a manager answers for a network
abbrev index_in : Option Managed → Option MapChannelListIndex
index_in none = none
index_in (some managed) = managed.index

abbrev pub index_for : Bytes → Manager → Option MapChannelListIndex
index_for host indexes = index_in (lookup host indexes)

index_for-set :
    (host : Bytes) (idx : MapChannelListIndex) (now : ℕ) (indexes : Manager)
    → is_empty idx.channels ≡ false
    → index_for host (ChannelIndex.set host idx now indexes) ≡ some idx
unfolding ChannelIndex.set
index_for-set host idx now indexes h = ground (
  arith,
  h,
  bytes_beq_iff host host,
  lookup-insert host host (record { index = some idx; updated_at = now; updating = false }) indexes,
)

not_empty : (chs : List ChannelListItem) (n : ℕ) → length chs ≡ suc n → is_empty chs ≡ false
not_empty [] n h = let bad : ⊥ = ground (arith, h) in absurd bad
not_empty (ch ∷ chs) n h = refl

-- A network has an index, and a search in it finds some channels.
abbrev pub Finds : Bytes → Manager → Bytes → List ChannelListItem → Type 0
Finds host indexes q found =
    (idx : MapChannelListIndex) × (index_for host indexes ≡ some idx) × (search q idx ≡ found)

-- When a list that is not empty has been indexed, a search in the network's index finds exactly the listed
-- channels whose key starts with the text, in the order of the sort, which keeps the number of channels.
pub finish_index-search :
    (lower : Bytes → Bytes) (sort : List ChannelListItem → List ChannelListItem)
    → ((chs : List ChannelListItem) → length (sort chs) ≡ length chs)
    → (now : ℕ) (host : Bytes) (item : ChannelListItem) (items : List ChannelListItem)
      (indexes : Manager) (q : Bytes)
    → Finds host
        (finish_index lower sort now host (item ∷ items) indexes)
        q
        (matches (index_key lower) q (sort (item ∷ items)))
unfolding finish_index ChannelIndex.finish
finish_index-search lower sort hs now host item items indexes q =
    let sorted = sort (item ∷ items) in
    (
      record { channels = sorted; m = index_all lower sorted [] },
      index_for-set host (record { channels = sorted; m = index_all lower sorted [] }) now indexes
          (not_empty sorted (length items) (hs (item ∷ items))),
      search-index_all lower sorted q,
    )
