-- ===== src/Irc/Negotiation.antt =====
-- pkg/irc/cap.go and the handlers of pkg/irc/sasl.go: capability negotiation and authentication. The order
-- in which Go walks the map of `parseCaps` is any order; here it is that of the tokens.
pub mod Wanted
pub mod Progress
use dispatch.Base.{
  ℕ, Bytes, Bool, true, false, not, ◌&&◌, ◌||◌, List, [], ◌∷◌, ◌++◌, Option, none, some, codes,
  ◌==◌, nat_eq, bytes_eq, if◌then◌else◌, is_empty, length, contains, split, join, lookup, insert,
  delete, has_key, keys, ltb, get_or, at,
}
use dispatch.Irc.Const.{Command}
use dispatch.Irc.Message.{Message, last_param}
use dispatch.Irc.Sasl.{Scram, Mech, mech_name, mech_step, auth_chunks}
use dispatch.Irc.Client.{Client, Caps, write}

-- One token of `parseCaps`: "name" or "name=value,value"; what follows a second '=' is dropped.
abbrev parse_cap : Caps → Bytes → Caps
parse_cap caps part = elim (split part b'=') [
  | [] ↦ caps
  | name ∷ [] ↦ insert name none caps
  | name ∷ values ∷ _ ↦ insert name (some (split values b',')) caps
]

add_caps : Caps → List Bytes → Caps
add_caps caps [] = caps
add_caps caps (part ∷ parts) = add_caps (parse_cap caps part) parts

-- `parseCaps`
unfoldable pub parse_caps : Bytes → Caps
unfolding add_caps
parse_caps caps = add_caps [] (split caps b' ')

abbrev any_of : List Bytes → List Bytes → Bool
any_of [] have = false
any_of (v ∷ values) have = contains have v || any_of values have

-- `HasCapability`
unfoldable pub has_capability : Bytes → List Bytes → Client → Bool
has_capability name values c = elim (lookup name c.enabled) [
  | none ↦ false
  | some none ↦ true
  | some (some have) ↦ is_empty values || any_of values have
]

-- `finishCAP`
unfoldable pub finish_cap : Client → Client
finish_cap c =
    if c.negotiating then write (codes "CAP END") (record c { negotiating = false }) else c

-- `authenticate`
unfoldable pub authenticate : Bytes → Client → Client
authenticate s c = write (codes "AUTHENTICATE " ++ s) c

-- `tryNextSASL`
unfoldable pub try_next_sasl : Client → Client
try_next_sasl c = elim c.mechanisms [
  | [] ↦ finish_cap c
  | m ∷ ms ↦ authenticate (mech_name m) (record c { current = some m; mechanisms = ms })
]

unfoldable pub filter_mechanisms : List Bytes → List Mech → List Mech
filter_mechanisms supported [] = []
filter_mechanisms supported (m ∷ ms) =
    let rest = filter_mechanisms supported ms in
    if contains supported (mech_name m) then m ∷ rest else rest

-- `filterSASLMechanisms`
unfoldable pub filter_sasl_mechanisms : List Bytes → Client → Client
filter_sasl_mechanisms supported c = record c {
  mechanisms = filter_mechanisms supported c.mechanisms;
}

-- With `c.GetCapability("sasl")`, whose values are nil if the server lists none
abbrev pub begin_with : Option (Option (List Bytes)) → Client → Client × Bool
begin_with none c = (c, false)
begin_with (some none) c = (try_next_sasl c, true)
begin_with (some (some mechs)) c = (try_next_sasl (filter_sasl_mechanisms mechs c), true)

-- `beginSASL`: the client after it, and its result
unfoldable pub begin_sasl : Client → Client × Bool
begin_sasl c = if c.negotiating then begin_with (lookup (codes "sasl") c.enabled) c else (c, false)

-- `if len(c.requestedCapabilities) == 0 && !c.beginSASL() { c.finishCAP() }`
unfoldable pub settle : Client → Client
unfolding begin_sasl
settle c =
    let (d, begun) = begin_sasl c in
    if is_empty c.requested then if begun then d else finish_cap d else c

-- The loops of LS: the wanted ones of the listed capabilities become requested.
unfoldable pub request_wanted : List Bytes → Caps → Caps → Caps
request_wanted wanted [] requested = requested
request_wanted wanted ((cap, values) ∷ caps) requested =
    request_wanted wanted caps
      (if contains wanted cap then insert cap values requested else requested)

-- The loop of ACK
unfoldable pub acknowledge : Caps → Client → Client
acknowledge [] c = c
acknowledge ((cap, values) ∷ caps) c = acknowledge caps (elim (lookup cap c.requested) [
  | none ↦ c
  | some v ↦ record c { enabled = insert cap v c.enabled; requested = delete cap c.requested }
])

unfoldable pub delete_caps : Caps → Caps → Caps
delete_caps [] from = from
delete_caps ((cap, values) ∷ caps) from = delete_caps caps (delete cap from)

-- The inner loop of NEW, once for every time that the capability is wanted
request_new : List Bytes → Bytes → Option (List Bytes) → Client × List Bytes → Client × List Bytes
request_new [] cap values (c, req) = (c, req)
request_new (wanted ∷ rest) cap values (c, req) = request_new rest cap values (
    if cap == wanted && not (has_capability cap [] c)
    then (record c { requested = insert cap values c.requested }, req ++ cap ∷ [])
    else (c, req))

unfoldable pub request_news : Caps → Client × List Bytes → Client × List Bytes
unfolding request_new
request_news [] (c, req) = (c, req)
request_news ((cap, values) ∷ caps) (c, req) =
    request_news caps (request_new c.wanted cap values (c, req))

abbrev pub cap_req : List Bytes → Bytes
cap_req names = codes "CAP REQ :" ++ join names (codes " ")

-- "LS", whose last line has three parameters
unfoldable pub handle_ls : Message → Client → Client
handle_ls msg c =
    let d = record c {
      requested = request_wanted c.wanted (parse_caps (last_param msg)) c.requested;
    } in
    if length msg.params == 3
    then if is_empty d.requested
      then write (codes "CAP END") d
      else write (cap_req (keys d.requested)) (record d { negotiating = true })
    else d

unfoldable pub handle_ack : Message → Client → Client
handle_ack msg c = settle (acknowledge (parse_caps (last_param msg)) c)

unfoldable pub handle_nak : Message → Client → Client
handle_nak msg c =
    settle (record c { requested = delete_caps (parse_caps (last_param msg)) c.requested })

abbrev ask_new : Client × List Bytes → Client
ask_new (c, req) = if is_empty req then c else write (cap_req req) c

unfoldable pub handle_new : Message → Client → Client
handle_new msg c = ask_new (request_news (parse_caps (last_param msg)) (c, []))

unfoldable pub handle_del : Message → Client → Client
handle_del msg c = record c { enabled = delete_caps (parse_caps (last_param msg)) c.enabled }

-- `handleCAP`
unfoldable pub handle_cap : Message → Client → Client
handle_cap msg c =
    if ltb (length msg.params) 3
    then write (codes "CAP END") c
    else let sub = get_or msg.params 1 [] in
      if sub == codes "LS"
      then handle_ls msg c
      else if sub == codes "ACK"
      then handle_ack msg c
      else if sub == codes "NAK"
      then handle_nak msg c
      else if sub == codes "NEW"
      then handle_new msg c
      else if sub == codes "DEL"
      then handle_del msg c
      else c

unfoldable pub send_chunks : List Bytes → Client → Client
send_chunks [] c = c
send_chunks (chunk ∷ chunks) c = send_chunks chunks (authenticate chunk c)

-- The answer to a challenge
unfoldable pub answer_challenge : Scram → Bytes → Mech → Client → Client
answer_challenge lib challenge m c =
    let (n, response) = mech_step lib m challenge in
    let d = record c { current = some n } in
    elim response [ none ↦ try_next_sasl d | some auth ↦ send_chunks (auth_chunks auth) d ]

-- RPL_SASLMECHS
unfoldable pub handle_mechs : Message → Client → Client
handle_mechs msg c =
    let d =
      if ltb 1 (length msg.params)
      then filter_sasl_mechanisms (split (get_or msg.params 1 []) b',') c
      else c in
    if is_empty d.mechanisms then finish_cap d else d

-- `handleSASL`, by the command of the message
unfoldable pub handle_sasl : Scram → Command → Message → Client → Client
handle_sasl lib Command.authenticate msg c = elim c.current [
  | none ↦ c
  | some m ↦ answer_challenge lib (last_param msg) m c
]
handle_sasl lib Command.err_saslfail msg c = try_next_sasl c
handle_sasl lib Command.err_sasltoolong msg c = try_next_sasl c
handle_sasl lib Command.err_saslaborted msg c = try_next_sasl c
handle_sasl lib Command.rpl_saslmechs msg c = handle_mechs msg c
handle_sasl lib Command.rpl_saslsuccess msg c = finish_cap c
handle_sasl lib Command.rpl_loggedin msg c = finish_cap c
handle_sasl lib Command.err_nicklocked msg c = finish_cap c
handle_sasl lib _ msg c = c
