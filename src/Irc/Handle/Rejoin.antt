-- ===== src/Irc/Handle/Rejoin.antt =====
-- The channels of the client across a reconnection.
use mathlib.Core.Path.{subst}
use dispatch.Base.{
  Bytes, true, List, [], ◌∷◌, ◌++◌, codes, if◌then◌else◌, is_empty, join, ◌≡◌, refl, sym, ap, ◌∙◌,
  arith, append_assoc, append-nil,
}
use dispatch.Irc.Casefold.Laws.{equal_fold_refl}
use dispatch.Irc.Message.{Message, Meta}
use dispatch.Irc.Client.{
  Client, is_me, client_equal_fold, mapping_of, set_nick, add_channel, flush_channels,
  join_channels, write_out, crlf,
}
use dispatch.Irc.Handle.{on_join, on_welcome}

-- The message "001 nick"
abbrev pub welcome_message : Bytes → Message
welcome_message nick = record {
  tags = [];
  sender = [];
  ident = [];
  host = [];
  command = codes "001";
  params = nick ∷ [];
  meta = Meta.no_meta;
}

-- The message ":nick JOIN channel"
abbrev pub join_message : Bytes → Bytes → Message
join_message nick channel = record {
  tags = [];
  sender = nick;
  ident = [];
  host = [];
  command = codes "JOIN";
  params = channel ∷ [];
  meta = Meta.no_meta;
}

unfoldable pub receive_joins : Bytes → List Bytes → Client → Client
receive_joins nick [] c = c
receive_joins nick (channel ∷ rest) c =
    receive_joins nick rest (on_join (join_message nick channel) c)

is_me-nick : (c : Client) → is_me c c.nick ≡ true
unfolding is_me client_equal_fold
is_me-nick c = equal_fold_refl (mapping_of c) c.nick

on_join-me :
    (c : Client) (nick channel : Bytes)
    → c.nick ≡ nick
    → ((on_join (join_message nick channel) c).channels ≡ c.channels ++ channel ∷ [])
      × ((on_join (join_message nick channel) c).nick ≡ nick)
unfolding on_join add_channel
on_join-me c nick channel e = (
  ground (arith, subst (λ n. is_me c n ≡ true) e (is_me-nick c)),
  ground (arith, e, subst (λ n. is_me c n ≡ true) e (is_me-nick c)),
)

receive_joins-channels :
    (cs : List Bytes) (c : Client) (nick : Bytes)
    → c.nick ≡ nick
    → (receive_joins nick cs c).channels ≡ c.channels ++ cs
unfolding receive_joins
receive_joins-channels [] c nick e = sym (append-nil c.channels)
receive_joins-channels (channel ∷ cs) c nick e =
    let (channels, still) = on_join-me c nick channel e in
    receive_joins-channels cs (on_join (join_message nick channel) c) nick still
    ∙ ap (λ x. x ++ cs) channels
    ∙ append_assoc c.channels (channel ∷ []) cs

on_welcome-channels :
    (c : Client) (nick : Bytes) → (on_welcome (welcome_message nick) c).channels ≡ []
unfolding on_welcome flush_channels set_nick join_channels write_out
on_welcome-channels c nick = go c.channels refl
  where
    go : (cs : List Bytes) → c.channels ≡ cs → (on_welcome (welcome_message nick) c).channels ≡ []
    go [] e = ground (arith, e)
    go (ch ∷ cs) e = ground (arith, e)

on_welcome-nick : (c : Client) (nick : Bytes) → (on_welcome (welcome_message nick) c).nick ≡ nick
unfolding on_welcome flush_channels set_nick join_channels write_out
on_welcome-nick c nick = ground arith

-- After a reconnection the welcome makes the client ask for exactly the channels it was in, in one JOIN,
-- or for nothing when it was in none; and when the server lets it into each, it is in the same channels
-- as before.
pub rejoin :
    (c : Client) (nick : Bytes)
    → ((on_welcome (welcome_message nick) c).out ≡ (
        if is_empty c.channels
        then c.out
        else c.out ++ ((codes "JOIN " ++ join c.channels (codes ",")) ++ crlf) ∷ []))
      × ((receive_joins nick c.channels (on_welcome (welcome_message nick) c)).channels
          ≡ c.channels)
unfolding on_welcome flush_channels join_channels write_out set_nick
rejoin c nick = (
  ground arith,
  receive_joins-channels c.channels (on_welcome (welcome_message nick) c) nick
        (on_welcome-nick c nick)
      ∙ ap (λ x. x ++ c.channels) (on_welcome-channels c nick),
)
