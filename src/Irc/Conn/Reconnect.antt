-- ===== src/Irc/Conn/Reconnect.antt =====
-- What a client is after its connection was lost and made again.
use dispatch.Base.{
  Bytes, Bool, true, false, List, [], ◌∷◌, ◌++◌, Option, none, some, if◌then◌else◌, map, ◌≡◌, refl,
  ap, ◌∙◌, append_assoc,
}
use dispatch.Irc.Client.{Client, ConnectionState, init_sasl, register, write}
use dispatch.Irc.Conn.{
  Attempt, connect, disconnect, lose_connection, prepare_reconnect, run_reconnect,
}
use dispatch.Irc.Conn.Attempts.{failed, reporting, try_connect_lem}
use dispatch.Irc.Handle.{conn_change}
use dispatch.Irc.State.{State, new_state, reset}

-- What the two clients share, and the second has of its own: its changes
abbrev pub Resumes : Client → List ConnectionState → Client → Type 0
Resumes c changes d =
    (d.changes ≡ changes)
    × (d.state ≡ new_state)
    × (d.connected ≡ true)
    × (d.registered ≡ false)
    × (d.reconnect ≡ false)
    × (d.nick ≡ c.nick)
    × (d.channels ≡ c.channels)

-- A lost connection is followed by these attempts, and the client resumes.
abbrev pub Reconnects : List Attempt → Option Bytes → Client → List ConnectionState → Type 0
Reconnects attempts lost c changes =
    (d : Client) × (run_reconnect attempts (lose_connection lost c) ≡ some d) × Resumes c changes d

-- The fields that the steps below keep
abbrev Core : Type 0
Core = List ConnectionState × State × Bool × Bool × Bool × Bytes × List Bytes × Bool

abbrev core : Client → Core
core c = (c.changes, c.state, c.connected, c.registered, c.reconnect, c.nick, c.channels, c.quit)

core-if :
    (b : Bool) (c d : Client) (k : Core) → core c ≡ k → core d ≡ k → core (if b then c else d) ≡ k
core-if true c d k hc hd = hc
core-if false c d k hc hd = hd

core-init_sasl : (c : Client) → core (init_sasl c) ≡ core c
unfolding init_sasl
core-init_sasl c = core-if _ _ _ (core c) refl refl

core-register : (c : Client) → core (register c) ≡ core c
unfolding register write
core-register c = core-if _ _ _ (core c) refl refl

core-connect :
    (c : Client) → core (connect c) ≡ core (conn_change true none (record c { connected = true }))
unfolding connect
core-connect c = core-register (conn_change true none (record c { connected = true }))

core-prepare_reconnect :
    (c : Client)
    → core (prepare_reconnect c)
      ≡ (c.changes, new_state, false, false, false, c.nick, c.channels, c.quit)
unfolding prepare_reconnect disconnect reset
core-prepare_reconnect c = go c.connected refl
  where
    go :
        (b : Bool)
        → c.connected ≡ b
        → core (prepare_reconnect c)
          ≡ (c.changes, new_state, false, false, false, c.nick, c.channels, c.quit)
    go true e = rw (prepare_reconnect, e) (core-init_sasl _)
    go false e = rw (prepare_reconnect, e) (core-init_sasl _)

lost_connection :
    (lost : Option Bytes) (c : Client)
    → c.quit ≡ false
    → lose_connection lost c ≡ record (conn_change false lost c) { reconnect = true }
unfolding lose_connection
lost_connection lost c running = rw (lose_connection, running) refl

core-reporting :
    (errs : List Bytes) (c : Client) (k : Core)
    → core c ≡ k
    → core (conn_change true none (record (reporting errs c) { connected = true })) ≡ (
      k.0 ++ (map failed errs ++ record { connected = true; error = none } ∷ []),
      k.1,
      true,
      k.3,
      k.4,
      k.5,
      k.6,
      k.7,
    )
unfolding conn_change
core-reporting errs c k h =
    ap (λ l. with_changes l)
      (append_assoc c.changes (map failed errs) (record { connected = true; error = none } ∷ []))
    ∙ ap (λ j. after j) h
  where
    with_changes : List ConnectionState → Core
    with_changes l = (l, c.state, true, c.registered, c.reconnect, c.nick, c.channels, c.quit)

    after : Core → Core
    after j = (
      j.0 ++ (map failed errs ++ record { connected = true; error = none } ∷ []),
      j.1,
      true,
      j.3,
      j.4,
      j.5,
      j.6,
      j.7,
    )

-- After a lost connection and any number of failed attempts, the first attempt that stands leaves the client
-- connected and not registered, with an empty channel state, its nick and the channels that it will join
-- again, and the loss, the failures and the connection have been reported in this order.
pub run_reconnect_lem :
    (lost : Option Bytes) (errs : List Bytes) (rest : List Attempt) (c : Client)
    → c.quit ≡ false
    → Reconnects (map Attempt.fails errs ++ Attempt.stands ∷ rest) lost c (
        c.changes
        ++ (record { connected = false; error = lost }
            ∷ (map failed errs ++ record { connected = true; error = none } ∷ [])))
unfolding run_reconnect conn_change
run_reconnect_lem lost errs rest c running =
    let cut : Client = record (conn_change false lost c) { reconnect = true } in
    let ready = prepare_reconnect cut in
    let ready_core = core-prepare_reconnect cut in
    let all = core-connect (reporting errs ready) ∙ core-reporting errs ready _ ready_core in
    (
      connect (reporting errs ready),
      ap (λ b. run_reconnect (map Attempt.fails errs ++ Attempt.stands ∷ rest) b)
            (lost_connection lost c running)
          ∙ try_connect_lem errs Attempt.stands rest ready (ap (λ k. k.7) ready_core ∙ running) tt,
      (
        ap (λ k. k.0) all
            ∙ append_assoc c.changes (record { connected = false; error = lost } ∷ []) _,
        ap (λ k. k.1) all,
        ap (λ k. k.2) all,
        ap (λ k. k.3) all,
        ap (λ k. k.4) all,
        ap (λ k. k.5) all,
        ap (λ k. k.6) all,
      ),
    )
