-- ===== src/Storage/Bolt/Laws.antt =====
-- What each operation of the store leaves for the readers of it, for every bucket that has the library's laws.
use dispatch.Base.{
  ℕ, ◌%◌, ◌^◌, Bytes, not, ◌&&◌, ◌||◌, List, [], ◌∷◌, ◌++◌, none, some, ◌==◌, nat_eq, bytes_eq,
  true, false, bytes_beq, bytes_beq_iff, if◌then◌else◌, length, has_prefix, contains, ◌≡◌, refl,
  sym, ap, ◌∙◌, arith, Lacks, append-nil,
}
use dispatch.Storage.Bolt.{
  Bucket, BucketLaws, Codec, User, Network, Channel, Store, network_id, channel_id, delete_keys,
  delete_prefix, delete_user, remove_network, remove_channel, has_channel, network, save_network,
  set_nick, save_channel, id_to_bytes, id_from_bytes, update, rewritten,
}

-- Two users have as many bytes, so what stands before an address decides nothing else.
beq-prefix :
    (u v a b : Bytes)
    → length u ≡ length v
    → bytes_beq (u ++ a) (v ++ b) ≡ (bytes_beq u v && bytes_beq a b)
unfolding bytes_beq
beq-prefix [] [] a b h = refl
beq-prefix [] (y ∷ v) a b h = absurd (omega (arith, h))
beq-prefix (x ∷ u) [] a b h = absurd (omega (arith, h))
beq-prefix (x ∷ u) (y ∷ v) a b h = ground (arith, beq-prefix u v a b (omega (arith, h)))

-- A zero byte ends the name of a network.
beq-zero :
    (n m a b : Bytes)
    → Lacks 0 n
    → Lacks 0 m
    → bytes_beq (n ++ (0 ∷ a)) (m ++ (0 ∷ b)) ≡ (bytes_beq n m && bytes_beq a b)
unfolding bytes_beq
beq-zero [] [] a b h g = ground arith
beq-zero [] (y ∷ m) a b h g = ground (arith, g)
beq-zero (x ∷ n) [] a b h g = ground (arith, h)
beq-zero (x ∷ n) (y ∷ m) a b h g = ground (arith, beq-zero n m a b h.1 g.1)

has_prefix-append :
    (u v a b : Bytes)
    → length u ≡ length v
    → has_prefix (u ++ a) (v ++ b) ≡ (bytes_beq u v && has_prefix a b)
unfolding has_prefix bytes_beq
has_prefix-append [] [] a b h = ground arith
has_prefix-append [] (y ∷ v) a b h = absurd (omega (arith, h))
has_prefix-append (x ∷ u) [] a b h = absurd (omega (arith, h))
has_prefix-append (x ∷ u) (y ∷ v) a b h =
    ground (arith, has_prefix-append u v a b (omega (arith, h)))

has_prefix-user : (u v a : Bytes) → length u ≡ length v → has_prefix (u ++ a) v ≡ bytes_beq u v
has_prefix-user u v a h =
    ap (λ w. has_prefix (u ++ a) w) (sym (append-nil v))
    ∙ has_prefix-append u v a [] h
    ∙ unfold has_prefix in ground arith

-- The keys up to the first one without the prefix
abbrev pub keys_with_prefix : Bytes → List Bytes → List Bytes
keys_with_prefix prefix [] = []
keys_with_prefix prefix (k ∷ ks) =
    let rest = keys_with_prefix prefix ks in if has_prefix k prefix then k ∷ rest else []

contains-keys_with_prefix :
    (prefix k : Bytes) (ks : List Bytes)
    → contains (keys_with_prefix prefix ks) k ≡ true
    → has_prefix k prefix ≡ true
unfolding contains
contains-keys_with_prefix prefix k [] h = ground (arith, h)
contains-keys_with_prefix prefix k (j ∷ ks) h =
    ground (arith, h, contains-keys_with_prefix prefix k ks, bytes_beq_iff j k, bytes_beq_iff k j)

-- `idFromBytes` reads what `idToBytes` wrote: ids keep their 64 bits.
pub id_from_bytes-id_to_bytes : (i : ℕ) → id_from_bytes (id_to_bytes i) ≡ i % 2 ^ 64
unfolding id_from_bytes id_to_bytes
id_from_bytes-id_to_bytes i = omega arith

module _ (B : Type 0) (bucket : Bucket B) (laws : BucketLaws B bucket) where
  get-delete_keys :
      (prefix j : Bytes) (ks : List Bytes) (b : B)
      → bucket.get j (delete_keys B bucket prefix ks b)
        ≡ (if contains (keys_with_prefix prefix ks) j then none else bucket.get j b)
  unfolding delete_keys contains
  get-delete_keys prefix j [] b = refl
  get-delete_keys prefix j (k ∷ ks) b = ground (
    arith,
    get-delete_keys prefix j ks (bucket.delete k b),
    laws.get-delete k j b,
    bytes_beq_iff k j,
    bytes_beq_iff j k,
  )

  get-delete_prefix :
      (prefix j : Bytes) (b : B)
      → bucket.get j (delete_prefix B bucket prefix b) ≡ (
          if contains (keys_with_prefix prefix (bucket.walk prefix b)) j
          then none
          else bucket.get j b)
  unfolding delete_prefix
  get-delete_prefix prefix j b = get-delete_keys prefix j (bucket.walk prefix b) b

  -- For a bucket with the library's laws, users whose ids have as many bytes, and networks without a zero
  -- byte: `SaveChannel` and `RemoveChannel` change what `HasChannel` says of that channel of that user,
  -- and of no other.
  pub has_channel-save_channel :
      (codec : Codec Channel) (u v : User) (c : Channel) (net ch : Bytes) (s : Store B)
      → length u.id_bytes ≡ length v.id_bytes
      → Lacks 0 c.network
      → Lacks 0 net
      → (has_channel B bucket v net ch (save_channel B bucket codec u c s) ≡ (
          has_channel B bucket v net ch s
          || (u.id_bytes == v.id_bytes && (c.network == net && c.name == ch))))
        × (has_channel B bucket v net ch (remove_channel B bucket u c.network c.name s) ≡ (
            has_channel B bucket v net ch s
            && not (u.id_bytes == v.id_bytes && (c.network == net && c.name == ch))))
  unfolding has_channel save_channel remove_channel channel_id
  has_channel-save_channel codec u v c net ch s h l1 l2 =
      let k = u.id_bytes ++ (c.network ++ (0 ∷ c.name)) in
      let j = v.id_bytes ++ (net ++ (0 ∷ ch)) in
      let same = beq-prefix u.id_bytes v.id_bytes (c.network ++ (0 ∷ c.name)) (net ++ (0 ∷ ch)) h in
      let names = beq-zero c.network net c.name ch l1 l2 in
      (
        ground (arith, laws.get-put k j (codec.marshal c) s.channels, same, names),
        ground (arith, laws.get-delete k j s.channels, same, names),
      )

  -- For a bucket with the library's laws and users whose ids have as many bytes but differ: deleting one of
  -- them leaves the networks and the channels of the other as they are.
  pub delete_user-networks :
      (codec : Codec Network) (u v : User) (address net ch : Bytes) (s : Store B)
      → length v.id_bytes ≡ length u.id_bytes
      → (v.id_bytes == u.id_bytes) ≡ false
      → (network B bucket codec v address (delete_user B bucket u s)
          ≡ network B bucket codec v address s)
        × (has_channel B bucket v net ch (delete_user B bucket u s)
            ≡ has_channel B bucket v net ch s)
  unfolding network has_channel delete_user network_id channel_id
  delete_user-networks codec u v address net ch s h ne = (
    ground (
      arith,
      ne,
      get-delete_prefix u.id_bytes (v.id_bytes ++ address) s.networks,
      contains-keys_with_prefix u.id_bytes (v.id_bytes ++ address)
          (bucket.walk u.id_bytes s.networks),
      has_prefix-user v.id_bytes u.id_bytes address h,
    ),
    ground (
      arith,
      ne,
      get-delete_prefix u.id_bytes (v.id_bytes ++ (net ++ (0 ∷ ch))) s.channels,
      contains-keys_with_prefix u.id_bytes (v.id_bytes ++ (net ++ (0 ∷ ch)))
          (bucket.walk u.id_bytes s.channels),
      has_prefix-user v.id_bytes u.id_bytes (net ++ (0 ∷ ch)) h,
    ),
  )

  network-put :
      (codec : Codec Network) (u v : User) (n : Network) (host address : Bytes) (s : Store B)
      → length u.id_bytes ≡ length v.id_bytes
      → network B bucket codec v address
          (record s { networks = bucket.put (u.id_bytes ++ host) (codec.marshal n) s.networks })
        ≡ (if u.id_bytes == v.id_bytes && host == address
            then some n
            else network B bucket codec v address s)
  unfolding network network_id
  network-put codec u v n host address s h = ground (
    arith,
    laws.get-put (u.id_bytes ++ host) (v.id_bytes ++ address) (codec.marshal n) s.networks,
    beq-prefix u.id_bytes v.id_bytes host address h,
    codec.unmarshal-marshal n,
  )

  get-saved : (k v : Bytes) (b : B) → bucket.get k (bucket.put k v b) ≡ some v
  get-saved k v b = ground (arith, laws.get-put k k v b, bytes_beq_iff k k)

  update-saved :
      (codec : Codec Network) (f : Network → Network) (u : User) (n : Network) (s : Store B)
      → update B bucket codec f u n.host (save_network B bucket codec u n s) ≡ record s {
        networks =
            bucket.put
              (u.id_bytes ++ n.host)
              (codec.marshal (f n))
              (bucket.put (u.id_bytes ++ n.host) (codec.marshal n) s.networks);
      }
  unfolding update save_network network_id
  update-saved codec f u n s =
      let k = u.id_bytes ++ n.host in
      let saved : Store B = record s { networks = bucket.put k (codec.marshal n) s.networks } in
      ap (λ o. rewritten B bucket codec o f k saved) (get-saved k (codec.marshal n) s.networks)
      ∙ ap (λ m. record saved { networks = bucket.put k (codec.marshal (f m)) saved.networks })
          (codec.unmarshal-marshal n)

  -- For a bucket with the library's laws and users whose ids have as many bytes: `Network` after
  -- `SaveNetwork`, after `SetNick` of what was saved, and after `RemoveNetwork` gives what was saved, that with
  -- the new nick, or nothing, for that user and address; for every other, what was there.
  pub network_after :
      (codec : Codec Network) (u v : User) (n : Network) (nick address : Bytes) (s : Store B)
      → length u.id_bytes ≡ length v.id_bytes
      → (network B bucket codec v address (save_network B bucket codec u n s) ≡ (
          if u.id_bytes == v.id_bytes && n.host == address
          then some n
          else network B bucket codec v address s))
        × (network B bucket codec v address
              (set_nick B bucket codec u nick n.host (save_network B bucket codec u n s))
            ≡ (if u.id_bytes == v.id_bytes && n.host == address
                then some (record n { nick = nick })
                else network B bucket codec v address s))
        × (network B bucket codec v address (remove_network B bucket u n.host s) ≡ (
            if u.id_bytes == v.id_bytes && n.host == address
            then none
            else network B bucket codec v address s))
  network_after codec u v n nick address s h = (
    saved,
    ap (λ t. network B bucket codec v address t) renamed
        ∙ (ground (
          arith,
          network-put codec u v (record n { nick = nick }) n.host address
              (record s {
                networks = bucket.put (u.id_bytes ++ n.host) (codec.marshal n) s.networks;
              })
              h,
          network-put codec u v n n.host address s h,
        )),
    unfold network remove_network network_id in
        ground (
          arith,
          laws.get-delete (u.id_bytes ++ n.host) (v.id_bytes ++ address) s.networks,
          beq-prefix u.id_bytes v.id_bytes n.host address h,
        ),
  )
    where
      renamed :
          set_nick B bucket codec u nick n.host (save_network B bucket codec u n s) ≡ record s {
            networks =
                bucket.put
                  (u.id_bytes ++ n.host)
                  (codec.marshal (record n { nick = nick }))
                  (bucket.put (u.id_bytes ++ n.host) (codec.marshal n) s.networks);
          }
      renamed = unfold set_nick in update-saved codec (λ m. record m { nick = nick }) u n s

      saved : network B bucket codec v address (save_network B bucket codec u n s) ≡ (
          if u.id_bytes == v.id_bytes && n.host == address
          then some n
          else network B bucket codec v address s)
      saved = unfold save_network network_id in network-put codec u v n n.host address s h
