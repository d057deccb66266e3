-- ===== src/Irc/Handle/Names.antt =====
-- A channel's users after the replies to NAMES, and its rejoining after a new welcome.
use dispatch.Base.{
  Bytes, List, [], ◌∷◌, ◌++◌, codes, ◌==◌, bytes_eq, bytes_beq_iff, if◌then◌else◌, trim_suffix,
  split-join, join, All, Lacks, insert, lookup-insert, lookup-delete, ◌≡◌, refl, ◌∙◌, arith,
  append_assoc, append-nil, bytes_beq,
}
use dispatch.Irc.Message.{Message, Meta, last_param, last_of}
use dispatch.Irc.State.{State, get_users, set_users}
use dispatch.Irc.State.Members.{get_users-set_users}
use dispatch.Irc.Client.{Client}
use dispatch.Irc.Handle.{on_names, on_end_of_names, buffered}

-- The message "353 nick = channel :name name ", with a blank at its end as servers send it
abbrev pub names_reply : Bytes → Bytes → Bytes → List Bytes → Message
names_reply nick channel name names = record {
  tags = [];
  sender = [];
  ident = [];
  host = [];
  command = codes "353";
  params = nick ∷ codes "=" ∷ channel ∷ (join (name ∷ names) (codes " ") ++ codes " ") ∷ [];
  meta = Meta.no_meta;
}

-- The message "366 nick channel"
abbrev pub names_end : Bytes → Bytes → Message
names_end nick channel = record {
  tags = [];
  sender = [];
  ident = [];
  host = [];
  command = codes "366";
  params = nick ∷ channel ∷ [];
  meta = Meta.no_meta;
}

-- Some replies: each has one name at least.
abbrev pub Replies : Type 0
Replies = List (Bytes × List Bytes)

abbrev pub AreNames : Replies → Type 0
AreNames [] = Unit
AreNames ((name, names) ∷ rest) = All (Lacks b' ') (name ∷ names) × AreNames rest

abbrev pub all_names : Replies → List Bytes
all_names [] = []
all_names ((name, names) ∷ rest) = (name ∷ names) ++ all_names rest

unfoldable pub receive_names : Bytes → Bytes → Replies → Client → Client
receive_names nick channel [] c = c
receive_names nick channel ((name, names) ∷ rest) c =
    receive_names nick channel rest (on_names (names_reply nick channel name names) c)

trim_suffix_blank : (s : Bytes) → trim_suffix (s ++ codes " ") (codes " ") ≡ s
unfolding trim_suffix bytes_beq
trim_suffix_blank [] = refl
trim_suffix_blank (c ∷ []) = ground arith
trim_suffix_blank (c ∷ d ∷ s) = ground (arith, trim_suffix_blank (d ∷ s))

buffered-insert :
    (channel other : Bytes) (us : List Bytes) (s : State)
    → buffered other (record s { user_buffers = insert channel us s.user_buffers })
      ≡ (if channel == other then us else buffered other s)
unfolding buffered
buffered-insert channel other us s = ground (arith, lookup-insert channel other us s.user_buffers)

on_names-buffered :
    (nick channel other name : Bytes) (names : List Bytes) (c : Client)
    → All (Lacks b' ') (name ∷ names)
    → buffered other (on_names (names_reply nick channel name names) c).state ≡ (
        if channel == other
        then buffered channel c.state ++ (name ∷ names)
        else buffered other c.state)
unfolding on_names last_param last_of
on_names-buffered nick channel other name names c h =
    rw (trim_suffix_blank (join (name ∷ names) (codes " ")), split-join b' ' name names h)
      (buffered-insert channel other (buffered channel c.state ++ (name ∷ names)) c.state)

on_names-users :
    (nick channel other name : Bytes) (names : List Bytes) (c : Client)
    → get_users other (on_names (names_reply nick channel name names) c).state
      ≡ get_users other c.state
unfolding on_names get_users
on_names-users nick channel other name names c = refl

receive_names-buffered :
    (nick channel other : Bytes) (replies : Replies) (c : Client)
    → AreNames replies
    → buffered other (receive_names nick channel replies c).state ≡ (
        if channel == other
        then buffered channel c.state ++ all_names replies
        else buffered other c.state)
unfolding receive_names
receive_names-buffered nick channel other [] c h =
    ground (arith, append-nil (buffered channel c.state), bytes_beq_iff channel other)
receive_names-buffered nick channel other ((name, names) ∷ rest) c h =
    let d = on_names (names_reply nick channel name names) c in
    ground (
      arith,
      receive_names-buffered nick channel other rest d h.1,
      on_names-buffered nick channel other name names c h.0,
      on_names-buffered nick channel channel name names c h.0,
      bytes_beq_iff channel channel,
      append_assoc (buffered channel c.state) (name ∷ names) (all_names rest),
    )

receive_names-users :
    (nick channel other : Bytes) (replies : Replies) (c : Client)
    → get_users other (receive_names nick channel replies c).state ≡ get_users other c.state
unfolding receive_names
receive_names-users nick channel other [] c = refl
receive_names-users nick channel other ((name, names) ∷ rest) c =
    receive_names-users nick channel other rest (on_names (names_reply nick channel name names) c)
    ∙ on_names-users nick channel other name names c

on_end_of_names-users :
    (nick channel other : Bytes) (c : Client)
    → get_users other (on_end_of_names (names_end nick channel) c).0.state
      ≡ (if channel == other then buffered channel c.state else get_users other c.state)
unfolding on_end_of_names get_users
on_end_of_names-users nick channel other c =
    get_users-set_users (buffered channel c.state) channel other c.state

on_end_of_names-buffered :
    (nick channel other : Bytes) (c : Client)
    → buffered other (on_end_of_names (names_end nick channel) c).0.state
      ≡ (if channel == other then [] else buffered other c.state)
unfolding on_end_of_names buffered set_users
on_end_of_names-buffered nick channel other c =
    ground (arith, lookup-delete channel other c.state.user_buffers)

-- A burst of NAMES replies and its end: the channel lists what was buffered for it and then every name of
-- the replies, in order, each once for each time it came; its buffer is empty again; and every other
-- channel lists what it did.
pub names_burst :
    (nick channel other : Bytes) (replies : Replies) (c : Client)
    → AreNames replies
    → (get_users other
          (on_end_of_names (names_end nick channel) (receive_names nick channel replies c)).0.state
        ≡ (if channel == other
            then buffered channel c.state ++ all_names replies
            else get_users other c.state))
      × (buffered other
            (on_end_of_names
              (names_end nick channel)
              (receive_names nick channel replies c)).0.state
          ≡ (if channel == other then [] else buffered other c.state))
names_burst nick channel other replies c h =
    let d = receive_names nick channel replies c in
    (
      ground (
        arith,
        on_end_of_names-users nick channel other d,
        receive_names-buffered nick channel channel replies c h,
        receive_names-users nick channel other replies c,
        bytes_beq_iff channel channel,
      ),
      ground (
        arith,
        on_end_of_names-buffered nick channel other d,
        receive_names-buffered nick channel other replies c h,
      ),
    )
