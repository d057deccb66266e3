-- ===== src/Tests/Stores.antt =====
-- The bolt store over a bucket that is a list of entries, and the session store, at concrete inputs.
use dispatch.Base.{
  Lacks, ◌||◌, arith, keys, contains, ℕ, zero, suc, take, drop, take-append, drop-append, is_empty,
  ap, ◌∙◌, Bytes, Bool, true, false, not, ◌&&◌, List, [], ◌∷◌, ◌++◌, none, some, codes, ◌==◌,
  nat_eq, bytes_eq, bytes_beq, bytes_beq_iff, if◌then◌else◌, ok, ◌≡◌, refl, arith, contains, length,
  lookup, insert, delete, lookup-insert, lookup-delete, has_prefix,
}
use dispatch.Storage.Bolt.{
  delete_user, remove_channel, Bucket, BucketLaws, Codec, User, Network, Channel, Store,
  remove_network, has_channel, network, save_network, set_nick, save_channel,
}
use dispatch.Storage.Bolt.Laws.{
  delete_user-networks, has_channel-save_channel, keys_with_prefix, network_after,
}
use dispatch.Server.States.{
  Session, StateStore, Effect, refresh, get, get_session, set_session, internal_delete_session,
}
use dispatch.Server.States.Laws.{refreshed_session}

abbrev Entries : Type 0
Entries = List (Bytes × Bytes)

abbrev with_prefix : Bytes → Entries → Entries
with_prefix prefix [] = []
with_prefix prefix ((k, v) ∷ b) =
    let rest = with_prefix prefix b in if has_prefix k prefix then (k, v) ∷ rest else rest

abbrev entries : Bucket Entries
entries = record {
  get = lookup;
  put = insert;
  delete = delete;
  scan = with_prefix;
  walk = λ prefix b. keys (with_prefix prefix b);
}

lookup-with_prefix :
    (prefix k : Bytes) (b : Entries)
    → lookup k (with_prefix prefix b) ≡ (if has_prefix k prefix then lookup k b else none)
unfolding lookup
lookup-with_prefix prefix k [] = ground arith
lookup-with_prefix prefix k ((j, v) ∷ b) =
    ground (arith, lookup-with_prefix prefix k b, bytes_beq_iff j k)

entries_laws : BucketLaws Entries entries
entries_laws = record {
  get-put = λ k j v b. lookup-insert k j v b;
  get-delete = λ k j b. lookup-delete k j b;
  scan_lookup = lookup-with_prefix;
}

-- A concrete codec: each field behind its length
abbrev fields_text : List Bytes → Bytes
fields_text [] = []
fields_text (f ∷ fs) = length f ∷ (f ++ fields_text fs)

abbrev read_fields : ℕ → Bytes → List Bytes
read_fields zero b = []
read_fields (suc n) [] = [] ∷ read_fields n []
read_fields (suc n) (size ∷ b) = take size b ∷ read_fields n (drop size b)

read_fields-text : (fs : List Bytes) → read_fields (length fs) (fields_text fs) ≡ fs
read_fields-text [] = refl
read_fields-text (f ∷ fs) =
    rw (take-append f (fields_text fs), drop-append f (fields_text fs))
      (ap (◌∷◌ f) (read_fields-text fs))

abbrev network_of : List Bytes → Network
network_of (a ∷ b ∷ c ∷ d ∷ e ∷ f ∷ g ∷ h ∷ i ∷ j ∷ _) = record {
  name = a;
  host = b;
  port = c;
  tls = not (is_empty d);
  server_password = e;
  nick = f;
  username = g;
  realname = h;
  account = i;
  password = j;
}
network_of _ = record {
  name = [];
  host = [];
  port = [];
  tls = false;
  server_password = [];
  nick = [];
  username = [];
  realname = [];
  account = [];
  password = [];
}

abbrev flag : Bool → Bytes
flag b = if b then 1 ∷ [] else []

abbrev network_fields : Network → List Bytes
network_fields n =
    n.name
    ∷ n.host
    ∷ n.port
    ∷ flag n.tls
    ∷ n.server_password
    ∷ n.nick
    ∷ n.username
    ∷ n.realname
    ∷ n.account
    ∷ n.password
    ∷ []

flag_back : (b : Bool) → not (is_empty (flag b)) ≡ b
flag_back true = refl
flag_back false = refl

abbrev network_codec : Codec Network
network_codec = record {
  marshal = λ n. fields_text (network_fields n);
  unmarshal = λ b. network_of (read_fields 10 b);
  unmarshal-marshal = λ n.
      ap network_of (read_fields-text (network_fields n))
      ∙ ap (λ b. record n { tls = b }) (flag_back n.tls);
}

abbrev channel_of : List Bytes → Channel
channel_of (a ∷ b ∷ _) = record { network = a; name = b }
channel_of _ = record { network = []; name = [] }

abbrev channel_codec : Codec Channel
channel_codec = record {
  marshal = λ c. fields_text (c.network ∷ c.name ∷ []);
  unmarshal = λ b. channel_of (read_fields 2 b);
  unmarshal-marshal = λ c. ap channel_of (read_fields-text (c.network ∷ c.name ∷ []));
}

abbrev ann : User
ann = record { id = 1; id_bytes = 0 ∷ 0 ∷ 0 ∷ 0 ∷ 0 ∷ 0 ∷ 0 ∷ 1 ∷ []; username = codes "1" }

abbrev libera : Network
libera = record {
  name = codes "Libera";
  host = codes "irc.libera";
  port = codes "6697";
  tls = true;
  server_password = [];
  nick = codes "ann";
  username = codes "ann";
  realname = [];
  account = [];
  password = [];
}

abbrev go_channel : Channel
go_channel = record { network = codes "irc.libera"; name = codes "#go" }

abbrev empty : Store Entries
empty = record { users = []; networks = []; channels = []; open_dms = [] }

-- Leaving "irc" takes the channel of "irc.libera" too.
abbrev saved : Store Entries
saved = save_channel Entries entries channel_codec ann go_channel empty

abbrev gone : List Bytes
gone =
    keys_with_prefix (ann.id_bytes ++ codes "irc")
      (entries.walk (ann.id_bytes ++ codes "irc") saved.channels)

abbrev go_key : Bytes
go_key = ann.id_bytes ++ (codes "irc.libera" ++ (0 ∷ codes "#go"))

network_after_example :
    (network Entries entries network_codec ann
        (codes "irc.libera")
        (save_network Entries entries network_codec ann libera empty)
      ≡ some libera)
    × (network Entries entries network_codec ann (codes "irc.libera") (
          set_nick Entries entries network_codec ann
            (codes "bea")
            (codes "irc.libera")
            (save_network Entries entries network_codec ann libera empty))
        ≡ some (record libera { nick = codes "bea" }))
    × (network Entries entries network_codec ann
          (codes "irc.libera")
          (remove_network Entries entries ann (codes "irc.libera") empty)
        ≡ none)
unfolding bytes_beq
network_after_example =
    network_after Entries entries entries_laws network_codec ann ann libera (codes "bea")
      (codes "irc.libera") empty refl

abbrev session : Session
session = record { user_id = 7; key = codes "k"; created_at = 0 }

abbrev one_session : StateStore Bytes
one_session = record { states = (7, codes "state") ∷ []; sessions = (codes "k", session) ∷ [] }

k-found : lookup (codes "k") one_session.sessions ≡ some session
unfolding lookup bytes_beq
k-found = refl

k-refreshed : (refresh 4000 (codes "n") session).1 ≡ some (codes "n")
unfolding refresh
k-refreshed = refl

refreshed_session_example :
    (after : StateStore Bytes) × (internal_delete_session
        (codes "k")
        (set_session (refresh 4000 (codes "n") session).0 one_session).0
      ≡ ok (after, ok (Effect.delete_stored (codes "k") ∷ [])))
    × (get_session (codes "n") after ≡ (
        if codes "k" == codes "n"
        then none
        else if codes "n" == codes "n"
        then some (refresh 4000 (codes "n") session).0
        else get_session (codes "n") one_session))
    × (get 7 after ≡ get 7 one_session)
refreshed_session_example =
    refreshed_session 4000 (codes "n") (codes "k") (codes "n") 7 session one_session k-found
      (λ e. ground (arith, e)) k-refreshed

abbrev bea : User
bea = record { id = 2; id_bytes = 0 ∷ 0 ∷ 0 ∷ 0 ∷ 0 ∷ 0 ∷ 0 ∷ 2 ∷ []; username = codes "2" }

zeroless : Lacks 0 go_channel.network
zeroless = ground arith

has_channel-save_channel_example :
    (has_channel Entries entries ann (codes "irc.libera") (codes "#go") saved ≡ (
      has_channel Entries entries ann (codes "irc.libera") (codes "#go") empty
      || (ann.id_bytes == ann.id_bytes
          && (go_channel.network == codes "irc.libera" && go_channel.name == codes "#go"))))
    × (has_channel Entries entries ann
          (codes "irc.libera")
          (codes "#go")
          (remove_channel Entries entries ann go_channel.network go_channel.name empty)
        ≡ (has_channel Entries entries ann (codes "irc.libera") (codes "#go") empty
            && not (
                ann.id_bytes == ann.id_bytes
                && (go_channel.network == codes "irc.libera" && go_channel.name == codes "#go"))))
has_channel-save_channel_example =
    has_channel-save_channel Entries entries entries_laws channel_codec ann ann go_channel
      (codes "irc.libera") (codes "#go") empty refl zeroless zeroless

ann-not-bea : (ann.id_bytes == bea.id_bytes) ≡ false
unfolding bytes_beq
ann-not-bea = refl

delete_user-networks_example :
    (network Entries entries network_codec ann
        (codes "irc.libera")
        (delete_user Entries entries bea saved)
      ≡ network Entries entries network_codec ann (codes "irc.libera") saved)
    × (has_channel Entries entries ann
          (codes "irc.libera")
          (codes "#go")
          (delete_user Entries entries bea saved)
        ≡ has_channel Entries entries ann (codes "irc.libera") (codes "#go") saved)
delete_user-networks_example =
    delete_user-networks Entries entries entries_laws network_codec bea ann (codes "irc.libera")
      (codes "irc.libera") (codes "#go") saved refl ann-not-bea
