-- ===== src/Irc/Negotiation/Progress.antt =====
-- Negotiation comes to its end: what is sent when nothing is asked for any more, and when servers refuse
-- one mechanism after the other.
use mathlib.Core.Path.{subst}
use dispatch.Base.{
  sym, ◌∙◌, ℕ, zero, suc, Bytes, Bool, true, false, List, [], ◌∷◌, ◌++◌, Option, none, some, codes,
  if◌then◌else◌, is_empty, length, map, lookup, bytes_eq, ◌≡◌, refl, arith, ap, ◌⊎◌, inl, inr,
  append_assoc,
}
use dispatch.Irc.Const.{Command}
use dispatch.Irc.Message.{Message}
use dispatch.Irc.Sasl.{Scram, Mech, mech_name}
use dispatch.Irc.Client.{Client, write, crlf}
use dispatch.Irc.Negotiation.{
  finish_cap, authenticate, try_next_sasl, filter_sasl_mechanisms, begin_sasl, begin_with, settle,
  handle_sasl,
}

abbrev pub repeat {ℓ} : {A : Type ℓ} → ℕ → (A → A) → A → A
repeat zero f x = x
repeat (suc n) f x = repeat n f (f x)

abbrev pub auth_line : Mech → Bytes
auth_line m = codes "AUTHENTICATE " ++ mech_name m ++ crlf

abbrev pub cap_end : Bytes
cap_end = codes "CAP END" ++ crlf

-- One line more is written: CAP END, and the negotiation is over, or AUTHENTICATE for a mechanism that is
-- now the current one.
abbrev pub Continues : Client → Client → Type 0
Continues c d =
    ((d.written ≡ c.written ++ cap_end ∷ []) × (d.negotiating ≡ false))
    ⊎ ((m : Mech) × (d.written ≡ c.written ++ auth_line m ∷ []) × (d.current ≡ some m))

finish_cap-Continues : (c : Client) → c.negotiating ≡ true → Continues c (finish_cap c)
unfolding finish_cap write
finish_cap-Continues c on = inl (ground (arith, on), ground (arith, on))

try_next_sasl-Continues : (c : Client) → c.negotiating ≡ true → Continues c (try_next_sasl c)
unfolding try_next_sasl authenticate write
try_next_sasl-Continues c on = go c.mechanisms refl
  where
    go : (ms : List Mech) → c.mechanisms ≡ ms → Continues c (try_next_sasl c)
    go [] e = rw (e, try_next_sasl) (finish_cap-Continues c on)
    go (m ∷ ms) e = inr (m, rw (e, try_next_sasl) refl, rw (e, try_next_sasl) refl)

abbrev settled : Option (Option (List Bytes)) → Client → Client
settled o c = if (begin_with o c).1 then (begin_with o c).0 else finish_cap (begin_with o c).0

settled-Continues :
    (o : Option (Option (List Bytes))) (c : Client)
    → c.negotiating ≡ true
    → Continues c (settled o c)
unfolding filter_sasl_mechanisms
settled-Continues none c on = finish_cap-Continues c on
settled-Continues (some none) c on = try_next_sasl-Continues c on
settled-Continues (some (some mechs)) c on =
    try_next_sasl-Continues (filter_sasl_mechanisms mechs c) on

-- ACK and NAK: when a client that negotiates waits for no capability any more, it writes exactly one line,
-- and so never leaves the server waiting.
pub settle-Continues :
    (c : Client) → c.negotiating ≡ true → is_empty c.requested ≡ true → Continues c (settle c)
unfolding settle begin_sasl
settle-Continues c on left =
    subst (λ d. Continues c d)
      (sym (ap (λ b. shape b (is_empty c.requested)) on ∙ ap (λ e. shape true e) left))
      (settled-Continues (lookup (codes "sasl") c.enabled) c on)
  where
    begun : Bool → Client × Bool
    begun on' = if on' then begin_with (lookup (codes "sasl") c.enabled) c else (c, false)

    shape : Bool → Bool → Client
    shape on' left' =
        if left' then if (begun on').1 then (begun on').0 else finish_cap (begun on').0 else c

try_next_sasl_cons :
    (c : Client) (m : Mech) (ms : List Mech)
    → c.mechanisms ≡ m ∷ ms
    → ((try_next_sasl c).written ≡ c.written ++ auth_line m ∷ [])
      × ((try_next_sasl c).negotiating ≡ c.negotiating)
      × ((try_next_sasl c).mechanisms ≡ ms)
unfolding try_next_sasl authenticate write
try_next_sasl_cons c m ms e =
    (rw (e, try_next_sasl) refl, rw (e, try_next_sasl) refl, rw (e, try_next_sasl) refl)

try_next_sasl_nil :
    (c : Client)
    → c.negotiating ≡ true
    → c.mechanisms ≡ []
    → ((try_next_sasl c).written ≡ c.written ++ cap_end ∷ [])
      × ((try_next_sasl c).negotiating ≡ false)
unfolding try_next_sasl finish_cap write
try_next_sasl_nil c on e =
    (rw (e, try_next_sasl) (ground (arith, on)), rw (e, try_next_sasl) (ground (arith, on)))

-- While the client negotiates, a server that refuses every mechanism is offered each of them once, in
-- order, and then CAP END; the negotiation is over.
pub refusals :
    (lib : Scram) (msg : Message) (c : Client) (ms : List Mech)
    → c.negotiating ≡ true
    → c.mechanisms ≡ ms
    → ((repeat (suc (length ms)) (handle_sasl lib Command.err_saslfail msg) c).written
        ≡ c.written ++ (map auth_line ms ++ cap_end ∷ []))
      × ((repeat (suc (length ms)) (handle_sasl lib Command.err_saslfail msg) c).negotiating
          ≡ false)
unfolding handle_sasl
refusals lib msg c [] on e = try_next_sasl_nil c on e
refusals lib msg c (m ∷ ms) on e =
    let (sent, still, left) = try_next_sasl_cons c m ms e in
    let (lines, over) = refusals lib msg (try_next_sasl c) ms (still ∙ on) left in
    (
      lines
          ∙ rw (sent, append_assoc c.written (auth_line m ∷ []) (map auth_line ms ++ cap_end ∷ []))
              refl,
      over,
    )
