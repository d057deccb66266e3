-- ===== src/Irc/Negotiation/Wanted.antt =====
-- The capabilities that the client asks for and enables are among those it wants, and so are those that the
-- lines it writes ask for.
use dispatch.Base.{
  Bytes, Bool, true, false, not, ◌&&◌, List, [], ◌∷◌, ◌++◌, Option, none, some, codes, ◌==◌, nat_eq,
  bytes_eq, bytes_beq_iff, if◌then◌else◌, contains, is_empty, length, get_or, ltb, keys, lookup,
  insert, delete, lookup-insert, lookup-delete, has_key, ◌≡◌, refl, arith, Bool-cases, Option-cases,
  inl, inr, All, All-append, has_prefix, join, ◌⊎◌, ◌||◌,
}
use dispatch.Irc.Message.{Message, last_param}
use dispatch.Irc.Sasl.{Mech, mech_name}
use dispatch.Irc.Client.{Client, Caps, crlf, write}
use dispatch.Irc.Negotiation.{
  begin_with, cap_req, parse_caps, has_capability, finish_cap, authenticate, try_next_sasl,
  filter_sasl_mechanisms, begin_sasl, settle, request_wanted, acknowledge, delete_caps, request_new,
  request_news, ask_new, handle_ls, handle_ack, handle_nak, handle_new, handle_del, handle_cap,
}

abbrev pub AmongWanted : List Bytes → Caps → Type 0
AmongWanted wanted caps = (name : Bytes) → has_key name caps ≡ true → contains wanted name ≡ true

among-insert :
    (wanted : List Bytes) (name : Bytes) (v : Option (List Bytes)) (caps : Caps)
    → contains wanted name ≡ true
    → AmongWanted wanted caps
    → AmongWanted wanted (insert name v caps)
unfolding has_key
among-insert wanted name v caps w h k found =
    ground (arith, lookup-insert name k v caps, h k, bytes_beq_iff name k)

among-delete :
    (wanted : List Bytes) (name : Bytes) (caps : Caps)
    → AmongWanted wanted caps
    → AmongWanted wanted (delete name caps)
unfolding has_key
among-delete wanted name caps h k found = ground (arith, lookup-delete name k caps, h k)

among-request_wanted :
    (wanted : List Bytes) (listed requested : Caps)
    → AmongWanted wanted requested
    → AmongWanted wanted (request_wanted wanted listed requested)
unfolding request_wanted
among-request_wanted wanted [] requested h = h
among-request_wanted wanted ((cap, values) ∷ listed) requested h =
    elim (Bool-cases (contains wanted cap)) [
      | inl found ↦ rw found (
          among-request_wanted wanted listed (insert cap values requested)
            (among-insert wanted cap values requested found h))
      | inr missing ↦ rw missing (among-request_wanted wanted listed requested h)
    ]

among-delete_caps :
    (wanted : List Bytes) (named caps : Caps)
    → AmongWanted wanted caps
    → AmongWanted wanted (delete_caps named caps)
unfolding delete_caps
among-delete_caps wanted [] caps h = h
among-delete_caps wanted ((cap, values) ∷ named) caps h =
    among-delete_caps wanted named (delete cap caps) (among-delete wanted cap caps h)

-- A line is no CAP REQ, or one that names only wanted capabilities.
abbrev pub Asks : List Bytes → Bytes → Type 0
Asks wanted line =
    (has_prefix line (codes "CAP REQ") ≡ false)
    ⊎ ((names : List Bytes) × (line ≡ (codes "CAP REQ :" ++ join names (codes " ")) ++ crlf)
        × ((name : Bytes) → contains names name ≡ true → contains wanted name ≡ true))

-- The capabilities of a client are as it wants them, and so is all that it has asked for.
abbrev pub IsWanted : Client → Type 0
IsWanted c =
    AmongWanted c.wanted c.requested
    × AmongWanted c.wanted c.enabled
    × All (Asks c.wanted) c.written

write-IsWanted :
    (line : Bytes) (c : Client)
    → Asks c.wanted (line ++ crlf)
    → IsWanted c
    → IsWanted (write line c)
unfolding write
write-IsWanted line c asks h =
    (h.0, h.1, All-append (Asks c.wanted) c.written ((line ++ crlf) ∷ []) h.2 (asks, tt))

Asks-cap_end : (wanted : List Bytes) → Asks wanted (codes "CAP END" ++ crlf)
unfolding has_prefix
Asks-cap_end wanted = inl refl

Asks-authenticate :
    (wanted : List Bytes) (s : Bytes) → Asks wanted ((codes "AUTHENTICATE " ++ s) ++ crlf)
unfolding has_prefix
Asks-authenticate wanted s = inl refl

contains-keys :
    (name : Bytes) (caps : Caps) → contains (keys caps) name ≡ true → has_key name caps ≡ true
unfolding contains has_key lookup
contains-keys name [] h = ground (arith, h)
contains-keys name ((cap, values) ∷ caps) h =
    ground (arith, h, contains-keys name caps, bytes_beq_iff cap name)

contains-snoc :
    (names : List Bytes) (last name : Bytes)
    → contains (names ++ last ∷ []) name ≡ (contains names name || last == name)
unfolding contains
contains-snoc [] last name = ground arith
contains-snoc (n ∷ names) last name = ground (arith, contains-snoc names last name)

found-has_key :
    (name : Bytes) (caps : Caps) (v : Option (List Bytes))
    → lookup name caps ≡ some v
    → has_key name caps ≡ true
unfolding has_key
found-has_key name caps v found = rw (found, has_key)

acknowledge-IsWanted : (caps : Caps) (c : Client) → IsWanted c → IsWanted (acknowledge caps c)
unfolding acknowledge
acknowledge-IsWanted [] c h = h
acknowledge-IsWanted ((cap, values) ∷ caps) c h = elim (Option-cases (lookup cap c.requested)) [
  | inl missing ↦ rw (missing, acknowledge) (acknowledge-IsWanted caps c h)
  | inr (v, found) ↦
      rw (found, acknowledge)
        (acknowledge-IsWanted caps
          (record c { enabled = insert cap v c.enabled; requested = delete cap c.requested })
          (
            among-delete c.wanted cap c.requested h.0,
            among-insert c.wanted cap v c.enabled (h.0 cap (found-has_key cap c.requested v found))
                h.1,
            h.2,
          ))
]

if-IsWanted : (b : Bool) (c d : Client) → IsWanted c → IsWanted d → IsWanted (if b then c else d)
if-IsWanted true c d h k = h
if-IsWanted false c d h k = k

finish_cap-IsWanted : (c : Client) → IsWanted c → IsWanted (finish_cap c)
unfolding finish_cap
finish_cap-IsWanted c h =
    let d = record c { negotiating = false } in
    if-IsWanted c.negotiating (write (codes "CAP END") d) c
      (write-IsWanted (codes "CAP END") d (Asks-cap_end c.wanted) h) h

try_next_sasl-IsWanted : (c : Client) → IsWanted c → IsWanted (try_next_sasl c)
unfolding try_next_sasl authenticate
try_next_sasl-IsWanted c h = go c.mechanisms refl
  where
    go : (ms : List Mech) → c.mechanisms ≡ ms → IsWanted (try_next_sasl c)
    go [] e = rw (e, try_next_sasl) (finish_cap-IsWanted c h)
    go (m ∷ ms) e =
        rw (e, try_next_sasl)
          (write-IsWanted (codes "AUTHENTICATE " ++ mech_name m)
            (record c { current = some m; mechanisms = ms })
            (Asks-authenticate c.wanted (mech_name m)) h)

begin_with-IsWanted :
    (o : Option (Option (List Bytes))) (c : Client) → IsWanted c → IsWanted (begin_with o c).0
unfolding filter_sasl_mechanisms
begin_with-IsWanted none c h = h
begin_with-IsWanted (some none) c h = try_next_sasl-IsWanted c h
begin_with-IsWanted (some (some mechs)) c h =
    try_next_sasl-IsWanted (filter_sasl_mechanisms mechs c) h

-- The two clients that `beginSASL` may leave, and the one after `finishCAP`
settle-IsWanted : (c : Client) → IsWanted c → IsWanted (settle c)
unfolding settle begin_sasl
settle-IsWanted c h = go c.negotiating (is_empty c.requested)
  where
    begun : Client × Bool
    begun = begin_with (lookup (codes "sasl") c.enabled) c

    begun-IsWanted : IsWanted begun.0
    begun-IsWanted = begin_with-IsWanted (lookup (codes "sasl") c.enabled) c h

    go :
        (on empty : Bool)
        → IsWanted (
            if empty
            then if (if on then begun else (c, false)).1
              then (if on then begun else (c, false)).0
              else finish_cap (if on then begun else (c, false)).0
            else c)
    go on false = h
    go true true =
        if-IsWanted begun.1 begun.0 (finish_cap begun.0) begun-IsWanted
          (finish_cap-IsWanted begun.0 begun-IsWanted)
    go false true = finish_cap-IsWanted c h

-- What the loops of NEW hand on: `wanted` does not change, and what is to be asked for is wanted.
abbrev IsAsking : Client × List Bytes → Type 0
IsAsking p =
    IsWanted p.0 × ((name : Bytes) → contains p.1 name ≡ true → contains p.0.wanted name ≡ true)

request_new-IsAsking :
    (rest : List Bytes) (cap : Bytes) (values : Option (List Bytes)) (c : Client) (req : List Bytes)
    → ((name : Bytes) → contains rest name ≡ true → contains c.wanted name ≡ true)
    → IsAsking (c, req)
    → IsAsking (request_new rest cap values (c, req))
unfolding request_new contains
request_new-IsAsking [] cap values c req within h = h
request_new-IsAsking (wanted ∷ rest) cap values c req within (h, asks) =
    elim (Bool-cases (cap == wanted && not (has_capability cap [] c))) [
      | inl asked ↦
          let found : contains c.wanted cap ≡ true =
            within cap
              (ground (arith, asked, bytes_beq_iff wanted cap, bytes_beq_iff cap wanted)) in
          rw (asked, request_new)
            (request_new-IsAsking rest cap values
              (record c { requested = insert cap values c.requested }) (req ++ cap ∷ []) later
              (
                (among-insert c.wanted cap values c.requested found h.0, h.1, h.2),
                λ name have. more found name have,
              ))
      | inr passed ↦
          rw (passed, request_new) (request_new-IsAsking rest cap values c req later (h, asks))
    ]
  where
    later : (name : Bytes) → contains rest name ≡ true → contains c.wanted name ≡ true
    later name have = within name (ground (arith, have))

    more :
        contains c.wanted cap ≡ true
        → (name : Bytes) → contains (req ++ cap ∷ []) name ≡ true
        → contains c.wanted name ≡ true
    more found name have =
        ground (arith, found, have, contains-snoc req cap name, asks name, bytes_beq_iff cap name)

request_news-IsAsking :
    (caps : Caps) (c : Client) (req : List Bytes)
    → IsAsking (c, req)
    → IsAsking (request_news caps (c, req))
unfolding request_news
request_news-IsAsking [] c req h = h
request_news-IsAsking ((cap, values) ∷ caps) c req h =
    request_news-IsAsking caps (request_new c.wanted cap values (c, req)).0
      (request_new c.wanted cap values (c, req)).1
      (request_new-IsAsking c.wanted cap values c req (λ name have. have) h)

ask_new-IsWanted : (c : Client) (req : List Bytes) → IsAsking (c, req) → IsWanted (ask_new (c, req))
ask_new-IsWanted c [] h = h.0
ask_new-IsWanted c (r ∷ req) h = write-IsWanted (cap_req (r ∷ req)) c (inr (r ∷ req, refl, h.1)) h.0

handle_ls-IsWanted : (msg : Message) (c : Client) → IsWanted c → IsWanted (handle_ls msg c)
unfolding handle_ls
handle_ls-IsWanted msg c h = go (length msg.params == 3) (is_empty asked)
  where
    asked : Caps
    asked = request_wanted c.wanted (parse_caps (last_param msg)) c.requested

    asked-IsWanted : AmongWanted c.wanted asked
    asked-IsWanted = among-request_wanted c.wanted (parse_caps (last_param msg)) c.requested h.0

    d : Client
    d = record c { requested = asked }

    go :
        (last empty : Bool)
        → IsWanted (
            if last
            then if empty
              then write (codes "CAP END") d
              else write (cap_req (keys asked)) (record d { negotiating = true })
            else d)
    go true true =
        write-IsWanted (codes "CAP END") d (Asks-cap_end c.wanted) (asked-IsWanted, h.1, h.2)
    go true false =
        write-IsWanted (cap_req (keys asked)) (record d { negotiating = true })
          (inr (keys asked, refl, λ name have. asked-IsWanted name (contains-keys name asked have)))
          (asked-IsWanted, h.1, h.2)
    go false empty = (asked-IsWanted, h.1, h.2)

handle_ack-IsWanted : (msg : Message) (c : Client) → IsWanted c → IsWanted (handle_ack msg c)
unfolding handle_ack
handle_ack-IsWanted msg c h =
    let caps = parse_caps (last_param msg) in
    settle-IsWanted (acknowledge caps c) (acknowledge-IsWanted caps c h)

handle_nak-IsWanted : (msg : Message) (c : Client) → IsWanted c → IsWanted (handle_nak msg c)
unfolding handle_nak
handle_nak-IsWanted msg c h =
    let caps = parse_caps (last_param msg) in
    settle-IsWanted (record c { requested = delete_caps caps c.requested })
      (among-delete_caps c.wanted caps c.requested h.0, h.1, h.2)

handle_new-IsWanted : (msg : Message) (c : Client) → IsWanted c → IsWanted (handle_new msg c)
unfolding handle_new contains
handle_new-IsWanted msg c h =
    let caps = parse_caps (last_param msg) in
    let (d, req) = request_news caps (c, []) in
    ask_new-IsWanted d req (request_news-IsAsking caps c [] (h, λ name have. ground (arith, have)))

handle_del-IsWanted : (msg : Message) (c : Client) → IsWanted c → IsWanted (handle_del msg c)
unfolding handle_del
handle_del-IsWanted msg c h =
    (h.0, among-delete_caps c.wanted (parse_caps (last_param msg)) c.enabled h.1, h.2)

-- Whatever CAP message a server sends: if all that the client has requested and enabled is wanted, and each
-- CAP REQ that it has written names only wanted capabilities, then this is so after the message too.
pub handle_cap-IsWanted : (msg : Message) (c : Client) → IsWanted c → IsWanted (handle_cap msg c)
unfolding handle_cap
handle_cap-IsWanted msg c h =
    let sub = get_or msg.params 1 [] in
    if-IsWanted (ltb (length msg.params) 3) (write (codes "CAP END") c)
      (switch (sub == codes "LS") (sub == codes "ACK") (sub == codes "NAK") (sub == codes "NEW")
        (sub == codes "DEL"))
      (write-IsWanted (codes "CAP END") c (Asks-cap_end c.wanted) h)
      (go (sub == codes "LS") (sub == codes "ACK") (sub == codes "NAK") (sub == codes "NEW")
        (sub == codes "DEL"))
  where
    switch : (ls ack nak new del : Bool) → Client
    switch ls ack nak new del =
        if ls
        then handle_ls msg c
        else if ack
        then handle_ack msg c
        else if nak
        then handle_nak msg c
        else if new
        then handle_new msg c
        else if del
        then handle_del msg c
        else c

    go : (ls ack nak new del : Bool) → IsWanted (switch ls ack nak new del)
    go true ack nak new del = handle_ls-IsWanted msg c h
    go false true nak new del = handle_ack-IsWanted msg c h
    go false false true new del = handle_nak-IsWanted msg c h
    go false false false true del = handle_new-IsWanted msg c h
    go false false false false true = handle_del-IsWanted msg c h
    go false false false false false = h
