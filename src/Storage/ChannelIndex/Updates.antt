-- ===== src/Storage/ChannelIndex/Updates.antt =====
-- The updates that `Get` of the manager asks for: one at a time for each network.
use dispatch.Base.{
  ℕ, Bytes, Bool, true, false, List, [], ◌∷◌, Option, none, some, nat_eq, bytes_eq, bytes_beq_iff,
  Returns, lookup, lookup-insert, ◌≡◌, refl, arith,
}
use dispatch.Storage.ChannelIndex.{Managed, Manager, get, timeout_update}

abbrev is_updating : Option Managed → Bool
is_updating none = false
is_updating (some idx) = idx.updating

abbrev updating_network : Bytes → Manager → Bool
updating_network network m = is_updating (lookup network m)

-- Calls of `Get`, of any network at any time
abbrev pub gets : List (Bytes × ℕ) → Manager → Manager
gets [] m = m
gets ((network, now) ∷ calls) m = gets calls (get network now m).2

get_refuses :
    (network : Bytes) (now : ℕ) (m : Manager)
    → updating_network network m ≡ true
    → (get network now m).1 ≡ false
unfolding get
get_refuses network now m h = go (lookup network m) refl
  where
    go : (l : Option Managed) → lookup network m ≡ l → (get network now m).1 ≡ false
    go none e = ground (arith, e, h)
    go (some idx) e = ground (arith, e, h)

get_asks :
    (network : Bytes) (now : ℕ) (m : Manager)
    → (get network now m).1 ≡ true
    → updating_network network (get network now m).2 ≡ true
unfolding get
get_asks network now m h = go (lookup network m) refl
  where
    go :
        (l : Option Managed)
        → lookup network m ≡ l
        → updating_network network (get network now m).2 ≡ true
    go none e = ground (
      arith,
      e,
      h,
      bytes_beq_iff network network,
      lookup-insert network network (record { index = none; updated_at = 0; updating = true }) m,
    )
    go (some idx) e = ground (
      arith,
      e,
      h,
      bytes_beq_iff network network,
      lookup-insert network network (record idx { updating = true }) m,
    )

get-updating :
    (network other : Bytes) (now : ℕ) (m : Manager)
    → updating_network network m ≡ true
    → updating_network network (get other now m).2 ≡ true
unfolding get
get-updating network other now m h = go (lookup other m) refl
  where
    go :
        (l : Option Managed)
        → lookup other m ≡ l
        → updating_network network (get other now m).2 ≡ true
    go none e = ground (
      arith,
      e,
      h,
      bytes_beq_iff other network,
      lookup-insert other network (record { index = none; updated_at = 0; updating = true }) m,
    )
    go (some idx) e = ground (
      arith,
      e,
      h,
      bytes_beq_iff other network,
      lookup-insert other network (record idx { updating = true }) m,
    )

gets-updating :
    (network : Bytes) (calls : List (Bytes × ℕ)) (m : Manager)
    → updating_network network m ≡ true
    → updating_network network (gets calls m) ≡ true
gets-updating network [] m h = h
gets-updating network ((other, now) ∷ calls) m h =
    gets-updating network calls (get other now m).2 (get-updating network other now m h)

timeout_update-updating :
    (network : Bytes) (m : Manager)
    → updating_network network m ≡ true
    → Returns (timeout_update network m)
unfolding timeout_update
timeout_update-updating network m h = go (lookup network m) refl
  where
    go : (l : Option Managed) → lookup network m ≡ l → Returns (timeout_update network m)
    go none e = ground (arith, e, h)
    go (some idx) e = ground (arith, e, h)

-- After a `Get` that asked its caller for an update, and only further calls of `Get` for any networks at any
-- times, with no `Set` and before any timeout: `Get` for the same network does not ask again, and the timeout
-- that was started finds the network's entry.
pub get_once :
    (network : Bytes) (now : ℕ) (m : Manager)
    → (get network now m).1 ≡ true
    → (calls : List (Bytes × ℕ)) (later : ℕ)
    → ((get network later (gets calls (get network now m).2)).1 ≡ false)
      × Returns (timeout_update network (gets calls (get network now m).2))
get_once network now m h calls later =
    let updating = gets-updating network calls (get network now m).2 (get_asks network now m h) in
    (
      get_refuses network later (gets calls (get network now m).2) updating,
      timeout_update-updating network (gets calls (get network now m).2) updating,
    )
