-- ===== src/Irc/Conn.antt =====
-- pkg/irc/conn.go: `tryConnect`, `connect`, `disconnect` and the cases of `run`. What comes of each attempt to
-- connect is given by the network: a list of attempts, since the loop waits for the next one. `register` and
-- `recv`, which `connect` starts, are one step and the rounds of `recv`.
pub mod Attempts
pub mod Reconnect
use dispatch.Base.{Bytes, Bool, true, false, List, [], ◌∷◌, ◌++◌, Option, none, some, if◌then◌else◌}
use dispatch.Irc.Client.{Client, init_sasl, register}
use dispatch.Irc.Handle.{conn_change}
use dispatch.Irc.State.{reset}

-- The connection stands; it fails with an error; the certificate is of an unknown authority; or `quit` is
-- closed before it is tried.
pub data Attempt : Type 0 where
  stands : Attempt
  fails : Bytes → Attempt
  unknown_authority : Bytes → Attempt
  stopped : Attempt

-- `connect`, when the connection stands, with `register`
unfoldable pub connect : Client → Client
unfolding conn_change register
connect c = register (conn_change true none (record c { connected = true }))

-- `tryConnect`; `none` when it waits for a further attempt
unfoldable pub try_connect : List Attempt → Client → Option Client
unfolding connect conn_change
try_connect [] c = if c.quit then some c else none
try_connect (attempt ∷ attempts) c =
    let again : Bytes → Option Client =
      λ err. try_connect attempts (conn_change false (some err) c) in
    if c.quit then some c else elim attempt [
      | Attempt.stands ↦ some (connect c)
      | Attempt.fails err ↦ again err
      | Attempt.unknown_authority err ↦ some (conn_change false (some err) c)
      | Attempt.stopped ↦ some (record c { quit = true })
    ]

-- `disconnect`, if the client is connected
unfoldable pub disconnect : Client → Client
disconnect c = record c { connected = false }

-- The case of `run` for `quit`, up to the closing of the channel of messages
unfoldable pub run_quit : Client → Client
unfolding disconnect
run_quit c =
    let left = record c { registered = false; sending = false } in
    if left.connected then disconnect left else left

-- The case of `run` for `reconnect`, up to the call of `tryConnect`
unfoldable pub prepare_reconnect : Client → Client
unfolding disconnect
prepare_reconnect c =
    let left = record c { registered = false; sending = false } in
    let closed = if left.connected then disconnect left else left in
    init_sasl (record closed { reconnect = false; state = reset closed.state })

unfoldable pub run_reconnect : List Attempt → Client → Option Client
unfolding prepare_reconnect try_connect
run_reconnect attempts c = try_connect attempts (prepare_reconnect c)

-- The end of `recv` when the connection gives no more lines, with the error of the scanner
unfoldable pub lose_connection : Option Bytes → Client → Client
unfolding conn_change
lose_connection err c = if c.quit then c else record (conn_change false err c) { reconnect = true }
