-- ===== src/Irc/Conn/Attempts.antt =====
-- How the loop of `tryConnect` ends.
use dispatch.Base.{
  Bytes, true, false, List, [], ◌∷◌, ◌++◌, Option, none, some, map, ◌≡◌, refl, sym, ap, ◌∙◌,
  append-nil, append_assoc,
}
use dispatch.Irc.Client.{Client, ConnectionState}
use dispatch.Irc.Conn.{Attempt, connect, try_connect}
use dispatch.Irc.Handle.{conn_change}

abbrev pub failed : Bytes → ConnectionState
failed err = record { connected = false; error = some err }

-- A client that has reported some failures
abbrev pub reporting : List Bytes → Client → Client
reporting errs c = record c { changes = c.changes ++ map failed errs }

-- What one last attempt gives
abbrev pub settled : Attempt → Client → Option Client
settled attempt c = elim attempt [
  | Attempt.stands ↦ some (connect c)
  | Attempt.fails err ↦ none
  | Attempt.unknown_authority err ↦ some (conn_change false (some err) c)
  | Attempt.stopped ↦ some (record c { quit = true })
]

abbrev pub IsLast : Attempt → Type 0
IsLast (Attempt.fails err) = ⊥
IsLast _ = Unit

one_more :
    (err : Bytes) (errs : List Bytes) (c : Client)
    → reporting errs (conn_change false (some err) c) ≡ reporting (err ∷ errs) c
unfolding conn_change
one_more err errs c =
    ap (λ l. with_changes l) (append_assoc c.changes (failed err ∷ []) (map failed errs))
  where
    with_changes : List ConnectionState → Client
    with_changes l = record c { changes = l }

last_attempt :
    (attempt : Attempt) (rest : List Attempt) (c : Client)
    → c.quit ≡ false
    → IsLast attempt
    → try_connect (attempt ∷ rest) c ≡ settled attempt c
unfolding try_connect
last_attempt Attempt.stands rest c running h = rw (try_connect, running) refl
last_attempt (Attempt.fails err) rest c running h = absurd h
last_attempt (Attempt.unknown_authority err) rest c running h = rw (try_connect, running) refl
last_attempt Attempt.stopped rest c running h = rw (try_connect, running) refl

failed_attempt :
    (err : Bytes) (rest : List Attempt) (c : Client)
    → c.quit ≡ false
    → try_connect (Attempt.fails err ∷ rest) c ≡ try_connect rest (conn_change false (some err) c)
unfolding try_connect
failed_attempt err rest c running = rw (try_connect, running) refl

no_changes : (c : Client) → reporting [] c ≡ c
no_changes c = ap (λ l. with_changes l) (append-nil c.changes)
  where
    with_changes : List ConnectionState → Client
    with_changes l = record c { changes = l }

-- While `quit` is open, the loop goes on over any number of failures, reports each in its order, and ends
-- with the first attempt that is not a plain failure, after which it tries no further.
pub try_connect_lem :
    (errs : List Bytes) (attempt : Attempt) (rest : List Attempt) (c : Client)
    → c.quit ≡ false
    → IsLast attempt
    → try_connect (map Attempt.fails errs ++ attempt ∷ rest) c ≡ settled attempt (reporting errs c)
unfolding conn_change
try_connect_lem [] attempt rest c running h =
    last_attempt attempt rest c running h ∙ ap (λ d. settled attempt d) (sym (no_changes c))
try_connect_lem (err ∷ errs) attempt rest c running h =
    failed_attempt err (map Attempt.fails errs ++ attempt ∷ rest) c running
    ∙ try_connect_lem errs attempt rest (conn_change false (some err) c) running h
    ∙ ap (λ d. settled attempt d) (one_more err errs c)
