-- ===== src/Storage/Bolt.antt =====
-- storage/boltdb/boltdb.go: users, networks, channels and open messages in the buckets of a bbolt database.
-- The buckets are the library's: an interface with the laws of its documentation, as is the generated
-- code that writes records as bytes. A transaction is one step, and its errors are the library's.
pub mod Laws
pub mod Messages
pub mod Paging
pub mod Accounts
use Prim.Native.Nat.{◌<◌}
use dispatch.Base.{
  ℕ, zero, suc, ◌+◌, ◌*◌, ◌/◌, ◌%◌, ◌^◌, Bytes, Bool, true, false, not, ◌&&◌, List, [], ◌∷◌, ◌++◌,
  Option, none, some, ◌==◌, nat_eq, bytes_eq, if◌then◌else◌, length, drop, has_prefix, split,
  lookup, keys, ◌≡◌,
}

-- A bucket: `Get`, `Put`, `Delete`; the entries that `Seek(prefix)` and `Next` walk over while the key has the
-- prefix, in a loop that changes nothing; and the keys that `Seek(prefix)` and each `Next` give in a loop that
-- deletes the key before it goes on. The library documents no law of these: a change may invalidate a cursor.
pub record Bucket (B : Type 0) : Type 0 where
  pub get : Bytes → B → Option Bytes
  pub put : Bytes → Bytes → B → B
  pub delete : Bytes → B → B
  pub scan : Bytes → B → List (Bytes × Bytes)
  pub walk : Bytes → B → List Bytes

-- What the library documents of them.
pub record BucketLaws (B : Type 0) (bucket : Bucket B) : Type 0 where
  pub get-put :
      (k j v : Bytes) (b : B)
      → bucket.get j (bucket.put k v b) ≡ (if k == j then some v else bucket.get j b)
  pub get-delete :
      (k j : Bytes) (b : B)
      → bucket.get j (bucket.delete k b) ≡ (if k == j then none else bucket.get j b)
  pub scan_lookup :
      (prefix k : Bytes) (b : B)
      → lookup k (bucket.scan prefix b) ≡ (if has_prefix k prefix then bucket.get k b else none)

-- `Marshal` and `Unmarshal` of a record, and that they are inverse
pub record Codec (A : Type 0) : Type 0 where
  pub marshal : A → Bytes
  pub unmarshal : Bytes → A
  pub unmarshal-marshal : (a : A) → unmarshal (marshal a) ≡ a

-- The fields that are stored; `id_bytes` has 8 bytes.
pub record User : Type 0 where
  pub id : ℕ
  pub id_bytes : Bytes
  pub username : Bytes

pub record Network : Type 0 where
  pub name : Bytes
  pub host : Bytes
  pub port : Bytes
  pub tls : Bool
  pub server_password : Bytes
  pub nick : Bytes
  pub username : Bytes
  pub realname : Bytes
  pub account : Bytes
  pub password : Bytes

pub record Channel : Type 0 where
  pub network : Bytes
  pub name : Bytes

pub record Tab : Type 0 where
  pub network : Bytes
  pub name : Bytes

pub record Store (B : Type 0) : Type 0 where
  pub users : B
  pub networks : B
  pub channels : B
  pub open_dms : B

-- `idToBytes`: big-endian, `n` bytes for the low `8 * n` bits
unfoldable pub be_bytes : ℕ → ℕ → Bytes
be_bytes zero i = []
be_bytes (suc n) i = (i / 256 ^ n) % 256 ∷ be_bytes n i

unfoldable pub id_to_bytes : ℕ → Bytes
unfolding be_bytes
id_to_bytes i = be_bytes 8 i

unfoldable pub be_value : ℕ → Bytes → ℕ
be_value acc [] = acc
be_value acc (b ∷ bs) = be_value (acc * 256 + b) bs

-- `idFromBytes`
unfoldable pub id_from_bytes : Bytes → ℕ
unfolding be_value
id_from_bytes b = be_value 0 b

-- `networkID`
unfoldable pub network_id : User → Bytes → Bytes
network_id user address = user.id_bytes ++ address

-- `channelID`
unfoldable pub channel_id : User → Bytes → Bytes → Bytes
channel_id user network channel = user.id_bytes ++ (network ++ (0 ∷ channel))

-- `tab[0]` and `tab[1]` of the parts behind the user's bytes; `none` is a panic.
unfoldable pub tab_of : Bytes → Option Tab
tab_of k = elim (split (drop 8 k) 0) [
  | network ∷ name ∷ _ ↦ some (record { network = network; name = name })
  | _ ↦ none
]

module _ (B : Type 0) (bucket : Bucket B) where
  -- The loop over the keys that the cursor gives, up to the first one without the prefix
  unfoldable pub delete_keys : Bytes → List Bytes → B → B
  delete_keys prefix [] b = b
  delete_keys prefix (k ∷ ks) b =
      if has_prefix k prefix then delete_keys prefix ks (bucket.delete k b) else b

  -- `deletePrefix` of one bucket
  unfoldable pub delete_prefix : Bytes → B → B
  unfolding delete_keys
  delete_prefix prefix b = delete_keys prefix (bucket.walk prefix b) b

  -- `DeleteUser`
  unfoldable pub delete_user : User → Store B → Store B
  unfolding delete_prefix
  delete_user user s = record {
    users = bucket.delete user.id_bytes s.users;
    networks = delete_prefix user.id_bytes s.networks;
    channels = delete_prefix user.id_bytes s.channels;
    open_dms = delete_prefix user.id_bytes s.open_dms;
  }

  -- `RemoveNetwork`
  unfoldable pub remove_network : User → Bytes → Store B → Store B
  unfolding delete_prefix network_id
  remove_network user address s = record s {
    networks = bucket.delete (network_id user address) s.networks;
    channels = delete_prefix (network_id user address) s.channels;
    open_dms = delete_prefix (network_id user address) s.open_dms;
  }

  -- `RemoveChannel`
  unfoldable pub remove_channel : User → Bytes → Bytes → Store B → Store B
  unfolding channel_id
  remove_channel user network channel s = record s {
    channels = bucket.delete (channel_id user network channel) s.channels;
  }

  -- `HasChannel`
  unfoldable pub has_channel : User → Bytes → Bytes → Store B → Bool
  unfolding channel_id
  has_channel user network channel s =
      elim (bucket.get (channel_id user network channel) s.channels) [
        | none ↦ false
        | some v ↦ true
      ]

  -- `AddOpenDM`
  unfoldable pub add_open_dm : User → Bytes → Bytes → Store B → Store B
  unfolding channel_id
  add_open_dm user network nick s = record s {
    open_dms = bucket.put (channel_id user network nick) [] s.open_dms;
  }

  -- `RemoveOpenDM`
  unfoldable pub remove_open_dm : User → Bytes → Bytes → Store B → Store B
  unfolding channel_id
  remove_open_dm user network nick s = record s {
    open_dms = bucket.delete (channel_id user network nick) s.open_dms;
  }

  tabs_of : List Bytes → Option (List Tab)
  unfolding tab_of
  tabs_of [] = some []
  tabs_of (k ∷ ks) =
      let rest = tabs_of ks in
      elim (tab_of k) [ none ↦ none | some t ↦ elim rest [ none ↦ none | some ts ↦ some (t ∷ ts) ] ]

  -- `OpenDMs`; `none` is a panic.
  unfoldable pub open_dms : User → Store B → Option (List Tab)
  unfolding tabs_of
  open_dms user s = tabs_of (keys (bucket.scan user.id_bytes s.open_dms))

  module _ (codec : Codec Network) where
    -- `Network`; `none` is `ErrNotFound`.
    unfoldable pub network : User → Bytes → Store B → Option Network
    unfolding network_id
    network user address s = elim (bucket.get (network_id user address) s.networks) [
      | none ↦ none
      | some v ↦ some (codec.unmarshal v)
    ]

    values : List (Bytes × Bytes) → List Network
    values [] = []
    values ((k, v) ∷ rest) = codec.unmarshal v ∷ values rest

    -- `Networks`
    unfoldable pub all_networks : User → Store B → List Network
    unfolding values
    all_networks user s = values (bucket.scan user.id_bytes s.networks)

    -- `SaveNetwork`
    unfoldable pub save_network : User → Network → Store B → Store B
    unfolding network_id
    save_network user n s = record s {
      networks = bucket.put (network_id user n.host) (codec.marshal n) s.networks;
    }

    -- With what `Get` found under the key
    abbrev pub rewritten : Option Bytes → (Network → Network) → Bytes → Store B → Store B
    rewritten none f id s = s
    rewritten (some v) f id s = record s {
      networks = bucket.put id (codec.marshal (f (codec.unmarshal v))) s.networks;
    }

    unfoldable update : (Network → Network) → User → Bytes → Store B → Store B
    unfolding network_id
    update f user address s =
        rewritten (bucket.get (network_id user address) s.networks) f (network_id user address) s

    -- `SetNick`
    unfoldable pub set_nick : User → Bytes → Bytes → Store B → Store B
    unfolding update
    set_nick user nick address s = update (λ n. record n { nick = nick }) user address s

    -- `SetNetworkName`
    unfoldable pub set_network_name : User → Bytes → Bytes → Store B → Store B
    unfolding update
    set_network_name user name address s = update (λ n. record n { name = name }) user address s

  module _ (codec : Codec Channel) where
    channel_values : List (Bytes × Bytes) → List Channel
    channel_values [] = []
    channel_values ((k, v) ∷ rest) = codec.unmarshal v ∷ channel_values rest

    -- `Channels`
    unfoldable pub all_channels : User → Store B → List Channel
    unfolding channel_values
    all_channels user s = channel_values (bucket.scan user.id_bytes s.channels)

    -- `SaveChannel`
    unfoldable pub save_channel : User → Channel → Store B → Store B
    unfolding channel_id
    save_channel user ch s = record s {
      channels = bucket.put (channel_id user ch.network ch.name) (codec.marshal ch) s.channels;
    }
