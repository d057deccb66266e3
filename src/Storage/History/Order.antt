-- ===== src/Storage/History/Order.antt =====
-- The order of the keys of a bucket, and where an entry is put.
use dispatch.Base.{
  Bytes, bytes_lt, true, false, List, [], ◌∷◌, ◌++◌, nat_eq, bytes_eq, bytes_beq_iff, All,
  All-append, ◌≡◌, refl, arith,
}
use dispatch.Storage.Bolt.Messages.{put_sorted}

abbrev pub Entries : Type 0
Entries = List (Bytes × Bytes)

bytes_lt-irreflexive : (s : Bytes) → bytes_lt s s ≡ false
unfolding bytes_lt
bytes_lt-irreflexive [] = refl
bytes_lt-irreflexive (c ∷ s) = ground (arith, bytes_lt-irreflexive s)

bytes_lt-transitive :
    (s t u : Bytes) → bytes_lt s t ≡ true → bytes_lt t u ≡ true → bytes_lt s u ≡ true
unfolding bytes_lt
bytes_lt-transitive [] [] u h k = ground (arith, h)
bytes_lt-transitive [] (d ∷ t) [] h k = ground (arith, k)
bytes_lt-transitive [] (d ∷ t) (e ∷ u) h k = refl
bytes_lt-transitive (c ∷ s) [] u h k = ground (arith, h)
bytes_lt-transitive (c ∷ s) (d ∷ t) [] h k = ground (arith, k)
bytes_lt-transitive (c ∷ s) (d ∷ t) (e ∷ u) h k = ground (arith, h, k, bytes_lt-transitive s t u)

-- Keys that come before an id
abbrev pub Before : Bytes → Entries → Type 0
Before id = All (λ e. bytes_lt e.0 id ≡ true)

pub put_sorted-last :
    (k v : Bytes) (es : Entries) → Before k es → put_sorted k v es ≡ es ++ (k, v) ∷ []
unfolding put_sorted
put_sorted-last k v [] h = refl
put_sorted-last k v ((j, w) ∷ es) h = ground (arith, h.0, put_sorted-last k v es h.1)

pub put_sorted-again :
    (k v old : Bytes) (es : Entries)
    → Before k es
    → put_sorted k v (es ++ (k, old) ∷ []) ≡ es ++ (k, v) ∷ []
unfolding put_sorted
put_sorted-again k v old [] h = ground (arith, bytes_lt-irreflexive k, bytes_beq_iff k k)
put_sorted-again k v old ((j, w) ∷ es) h = ground (arith, h.0, put_sorted-again k v old es h.1)

pub Before-later :
    (id next : Bytes) (es : Entries) → bytes_lt id next ≡ true → Before id es → Before next es
Before-later id next [] h b = tt
Before-later id next ((k, v) ∷ es) h b =
    (bytes_lt-transitive k id next b.0 h, Before-later id next es h b.1)

pub Before-append :
    (id k v : Bytes) (es : Entries)
    → Before id es
    → bytes_lt k id ≡ true
    → Before id (es ++ (k, v) ∷ [])
Before-append id k v es b h = All-append (λ e. bytes_lt e.0 id ≡ true) es ((k, v) ∷ []) b (h, tt)

pub Before-split :
    (id k v : Bytes) (es : Entries)
    → Before id (es ++ (k, v) ∷ [])
    → Before id es × (bytes_lt k id ≡ true)
Before-split id k v [] b = (tt, b.0)
Before-split id k v ((j, w) ∷ es) b =
    let (rest, last) = Before-split id k v es b.1 in ((b.0, rest), last)
