-- ===== src/Irc/Handle/Laws.antt =====
-- Where handling a message stops the program.
use Prim.Native.Nat.{◌<◌}
use mathlib.Core.Logic.{◌↔◌}
use dispatch.Base.{
  true, false, none, bytes_eq, Outcome, ok, panic, ◌>>=◌, length, ◌≡◌, ◌≢◌, refl, ◌⊎◌, inl, inr,
  arith, Bool-cases,
}
use dispatch.Irc.Const.{Command, command_of}
use dispatch.Irc.Message.{Message}
use dispatch.Irc.Features.{parse_features}
use dispatch.Irc.Features.Laws.{parse_features-panic_iff}
use dispatch.Irc.Client.{Client}
use dispatch.Irc.Handle.{
  Env, on_isupport, on_error, deliver, conn_change, close_quit, handle_command, handle_as,
  handle_message, keeping,
}

-- The messages that stop the program.
abbrev pub Stops : Command → Message → Client → Type 0
Stops cmd msg c =
    ((cmd ≡ Command.rpl_isupport) × (length msg.params < 2))
    ⊎ ((cmd ≡ Command.error) × (c.quit ≡ true))

true-not-false : true ≢ false
true-not-false = λ e. cc

ok-not-panic {ℓ} : {A : Type ℓ} (a : A) → ok a ≢ panic
ok-not-panic a = λ e. cc

bind-panic {ℓ κ} :
    {A : Type ℓ} {B : Type κ} (o : Outcome A) (f : A → Outcome B)
    → ((a : A) → f a ≢ panic)
    → (o >>= f) ≡ panic
    → o ≡ panic
bind-panic (ok a) f safe h = absurd (safe a h)
bind-panic panic f safe h = refl

close_quit-panic : (c : Client) → close_quit c ≡ panic → c.quit ≡ true
unfolding close_quit
close_quit-panic c h = elim (Bool-cases c.quit) [
  | inl closed ↦ closed
  | inr open_yet ↦ absurd (ok-not-panic (record c { quit = true }) (ground (arith, h, open_yet)))
]

handle_as-panic :
    (env : Env) (cmd : Command) (msg : Message) (c : Client)
    → handle_as env cmd msg c ≡ panic
    → Stops cmd msg c
unfolding handle_as handle_command on_error on_isupport conn_change deliver
handle_as-panic env Command.rpl_isupport msg c h = inl (
  refl,
  (parse_features-panic_iff c.features msg.params).0 (
      bind-panic (parse_features c.features msg.params) _ (λ f. ok-not-panic _)
        (bind-panic _ _ (λ d. ok-not-panic _) (bind-panic _ _ (λ d. ok-not-panic _) h))),
)
handle_as-panic env Command.error msg c h = inr (
  refl,
  close_quit-panic (conn_change false none (deliver msg c))
      (bind-panic _ (keeping msg) (λ d. ok-not-panic _) h),
)
handle_as-panic env _ msg c h = absurd (ok-not-panic _ h)

panic-handle_as :
    (env : Env) (cmd : Command) (msg : Message) (c : Client)
    → Stops cmd msg c
    → handle_as env cmd msg c ≡ panic
unfolding handle_as handle_command on_error on_isupport close_quit conn_change deliver
panic-handle_as env cmd msg c (inl (is, few)) =
    rw (is, (parse_features-panic_iff c.features msg.params).1 few) refl
panic-handle_as env cmd msg c (inr (is, closed)) = rw (is, closed) refl

-- Handling a message stops the program exactly when it is an RPL_ISUPPORT with fewer than two parameters,
-- or an ERROR after the client was told to quit.
pub handle_message-panic_iff :
    (env : Env) (msg : Message) (c : Client)
    → (handle_message env msg c ≡ panic) ↔ (
        ((command_of msg.command ≡ Command.rpl_isupport) × (length msg.params < 2))
        ⊎ ((command_of msg.command ≡ Command.error) × (c.quit ≡ true)))
unfolding handle_message
handle_message-panic_iff env msg c = (
  handle_as-panic env (command_of msg.command) msg c,
  panic-handle_as env (command_of msg.command) msg c,
)
