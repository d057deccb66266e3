-- ===== src/Storage/ChannelIndex.antt =====
-- storage/channel_index.go: the index over a network's list of channels, and the manager of the indexes.
-- `strings.ToLower` and `sort.Sort` are the library's: parameters. The lock makes each call one step, and
-- the goroutine of `timeoutUpdate` is a step of its own; times are in seconds.
pub mod Laws
pub mod Updates
use dispatch.Base.{
  ℕ, zero, suc, ◌+◌, ◌-◌, min, Bytes, bytes_lt, Bool, true, false, not, ◌&&◌, ◌||◌, List, [], ◌∷◌,
  ◌++◌, Option, none, some, ◌==◌, nat_eq, bytes_eq, if◌then◌else◌, ltb, leb, Outcome, ok, panic,
  length, take, drop, is_empty, trim_left, lookup, insert,
}
use dispatch.Base.Int.{ℤ, pos, negsuc}

pub record ChannelListItem : Type 0 where
  pub name : Bytes
  pub user_count : ℤ
  pub topic : Bytes

-- `c[i].UserCount > c[j].UserCount`, and equality
abbrev pub int_lt : ℤ → ℤ → Bool
int_lt (pos a) (pos b) = ltb a b
int_lt (pos a) (negsuc b) = false
int_lt (negsuc a) (pos b) = true
int_lt (negsuc a) (negsuc b) = ltb b a

abbrev pub int_eq : ℤ → ℤ → Bool
int_eq (pos a) (pos b) = a == b
int_eq (negsuc a) (negsuc b) = a == b
int_eq _ _ = false

-- `MapChannelListIndex`
pub record MapChannelListIndex : Type 0 where
  pub channels : List ChannelListItem
  pub m : List (Bytes × List ChannelListItem)

-- `NewMapChannelListIndex`
abbrev pub new_index : MapChannelListIndex
new_index = record { channels = []; m = [] }

-- `Add`
unfoldable pub add : ChannelListItem → MapChannelListIndex → MapChannelListIndex
add item idx = record idx { channels = idx.channels ++ item ∷ [] }

-- The body of the loop over the prefixes of a key
unfoldable pub add_at :
    ChannelListItem
    → Bytes
    → List (Bytes × List ChannelListItem)
    → List (Bytes × List ChannelListItem)
add_at ch k m = elim (lookup k m) [
  | none ↦ insert k (ch ∷ []) m
  | some found ↦ insert k (found ++ ch ∷ []) m
]

-- That loop, from `i` on and for the `n` values that are left
unfoldable pub add_prefixes :
    ChannelListItem
    → Bytes
    → ℕ
    → ℕ
    → List (Bytes × List ChannelListItem)
    → List (Bytes × List ChannelListItem)
unfolding add_at
add_prefixes ch key i zero m = m
add_prefixes ch key i (suc n) m = add_prefixes ch key (suc i) n (add_at ch (take i key) m)

-- `idx.m[q]`
unfoldable pub found : Bytes → List (Bytes × List ChannelListItem) → List ChannelListItem
found q m = elim (lookup q m) [ none ↦ [] | some chs ↦ chs ]

module _ (lower : Bytes → Bytes) where
  -- `Less`
  unfoldable pub less : ChannelListItem → ChannelListItem → Bool
  less a b =
      int_lt b.user_count a.user_count
      || int_eq a.user_count b.user_count && bytes_lt (lower a.name) (lower b.name)

  -- The key of a channel
  unfoldable pub index_key : ChannelListItem → Bytes
  index_key ch = trim_left (lower ch.name) b'#'

  -- The loop over the channels
  unfoldable pub index_all :
      List ChannelListItem
      → List (Bytes × List ChannelListItem)
      → List (Bytes × List ChannelListItem)
  unfolding index_key add_prefixes
  index_all [] m = m
  index_all (ch ∷ chs) m =
      index_all chs (add_prefixes ch (index_key ch) 1 (length (index_key ch)) m)

  -- `Finish`
  unfoldable pub finish :
      (List ChannelListItem → List ChannelListItem) → MapChannelListIndex → MapChannelListIndex
  unfolding index_all
  finish sort idx =
      let sorted = sort idx.channels in record { channels = sorted; m = index_all sorted idx.m }

-- `Search`
unfoldable pub search : Bytes → MapChannelListIndex → List ChannelListItem
unfolding found
search q idx = if is_empty q then idx.channels else found q idx.m

-- `if start >= len(res) { return nil }` and the slice; a negative start is out of range.
unfoldable pub slice_from : ℤ → ℕ → List ChannelListItem → Outcome (List ChannelListItem)
slice_from (pos start) n res =
    if leb (length res) start
    then ok []
    else ok (drop start (take (min (start + n) (length res)) res))
slice_from (negsuc start) n res = panic

-- `SearchN`
unfoldable pub search_n : Bytes → ℤ → ℕ → MapChannelListIndex → Outcome (List ChannelListItem)
unfolding slice_from found
search_n q start n idx =
    if is_empty q then slice_from start n idx.channels else slice_from start n (found q idx.m)

-- `managedChannelIndex`
pub record Managed : Type 0 where
  pub index : Option MapChannelListIndex
  pub updated_at : ℕ
  pub updating : Bool

-- `ChannelListUpdateInterval`
abbrev pub update_interval : ℕ
update_interval = 86400

abbrev pub Manager : Type 0
Manager = List (Bytes × Managed)

-- `Get`: the index, whether the caller shall update it, and the manager behind. `timeoutUpdate` is started
-- when that is so.
unfoldable pub get : Bytes → ℕ → Manager → Option MapChannelListIndex × Bool × Manager
get network now indexes = elim (lookup network indexes) [
  | none ↦ (
    none,
    true,
    insert network (record { index = none; updated_at = 0; updating = true }) indexes,
  )
  | some idx ↦
      if not idx.updating && ltb update_interval (now - idx.updated_at)
      then (idx.index, true, insert network (record idx { updating = true }) indexes)
      else (idx.index, false, indexes)
]

-- `Set`
unfoldable pub set : Bytes → MapChannelListIndex → ℕ → Manager → Manager
set network index now indexes =
    if is_empty index.channels
    then indexes
    else insert network (record { index = some index; updated_at = now; updating = false }) indexes

-- `timeoutUpdate`, when its time is over; the entry of a network that has none is a nil pointer.
unfoldable pub timeout_update : Bytes → Manager → Outcome Manager
timeout_update network indexes = elim (lookup network indexes) [
  | none ↦ panic
  | some idx ↦
      if idx.updating
      then ok (insert network (record idx { updating = false }) indexes)
      else ok indexes
]
