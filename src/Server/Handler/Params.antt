-- ===== src/Server/Handler/Params.antt =====
-- Which messages make `dispatchMessage` index its parameters out of range.
use dispatch.Base.{
  ℕ, zero, suc, Bytes, Bool, true, false, ◌||◌, List, [], ◌∷◌, Option, none, some, codes, ◌==◌,
  nat_eq, bytes_eq, if◌then◌else◌, ltb, leb, Outcome, ok, panic, ◌>>=◌, is_empty, length, at, ◌≡◌,
  refl, ap, ◌∙◌, arith, bytes_beq,
}
use dispatch.Irc.Const.{Command, command_of, command_of-wire}
use dispatch.Irc.Ctcp.{to_ctcp}
use dispatch.Irc.Message.{Message}
use dispatch.Server.Handler.{
  Env, Handler, Chat, chat_of, on_join, on_part, on_message, on_info, send,
}
use dispatch.Server.Handler.Dispatch.{report_error, handle_command, dispatch_message}
use dispatch.Server.Handler.Replies.{
  buffer_for, names_end, no_topic, on_list, on_topic, whois_server, whois_user,
}
use dispatch.Server.Json.{Response}
use dispatch.Server.Live.{flag, send_json}
use dispatch.Storage.ChannelIndex.{MapChannelListIndex}

abbrev pub is_panic {ℓ} : {A : Type ℓ} → Outcome A → Bool
is_panic (ok a) = false
is_panic panic = true

is_panic-then {ℓ κ} :
    {A : Type ℓ} {B : Type κ} (o : Outcome A) (f : A → B)
    → is_panic (o >>= λ a. ok (f a)) ≡ is_panic o
is_panic-then (ok a) f = refl
is_panic-then panic f = refl

is_panic-at {ℓ} : {A : Type ℓ} (xs : List A) (n : ℕ) → is_panic (at xs n) ≡ leb (length xs) n
is_panic-at [] n = ground arith
is_panic-at (x ∷ xs) zero = ground arith
is_panic-at (x ∷ xs) (suc n) = is_panic-at xs n ∙ ground arith

-- A chat message is indexed when it is shown, and an entry of a list when there is a buffer.
abbrev pub shown_params : Chat → ℕ
shown_params (Chat.offer pack) = 0
shown_params Chat.ignored = 0
shown_params Chat.shown = 1

abbrev pub list_params : Option MapChannelListIndex → ℕ
list_params none = 0
list_params (some idx) = 3

-- How many parameters the handler of a command indexes
abbrev pub params_of : Command → Message → Handler → ℕ
params_of command msg i = elim command [
  | Command.join ↦ 1
  | Command.part ↦ 1
  | Command.topic ↦ 1
  | Command.privmsg ↦ shown_params (chat_of (to_ctcp msg))
  | Command.notice ↦ shown_params (chat_of (to_ctcp msg))
  | Command.rpl_welcome ↦ 1
  | Command.rpl_yourhost ↦ 1
  | Command.rpl_created ↦ 1
  | Command.rpl_luserclient ↦ 1
  | Command.rpl_luserop ↦ 1
  | Command.rpl_luserunknown ↦ 1
  | Command.rpl_luserchannels ↦ 1
  | Command.rpl_luserme ↦ 1
  | Command.rpl_whoisuser ↦ 6
  | Command.rpl_whoisserver ↦ 3
  | Command.rpl_notopic ↦ 2
  | Command.rpl_topic ↦ 2
  | Command.rpl_endofnames ↦ 2
  | Command.rpl_list ↦ list_params (buffer_for i)
  | _ ↦ 0
]

is_panic-on_join :
    (env : Env) (msg : Message) (i : Handler)
    → is_panic (on_join env msg i) ≡ ltb (length msg.params) 1
unfolding on_join
is_panic-on_join env msg i =
    is_panic-then (at msg.params 0) _ ∙ is_panic-at msg.params 0 ∙ ground arith

is_panic-on_part :
    (msg : Message) (i : Handler) → is_panic (on_part msg i) ≡ ltb (length msg.params) 1
unfolding on_part
is_panic-on_part msg i = is_panic-then (at msg.params 0) _ ∙ is_panic-at msg.params 0 ∙ ground arith

is_panic-on_message :
    (env : Env) (msg : Message) (i : Handler)
    → is_panic (on_message env msg i)
      ≡ ltb (length msg.params) (shown_params (chat_of (to_ctcp msg)))
unfolding on_message
is_panic-on_message env msg i = go (chat_of (to_ctcp msg)) refl
  where
    go :
        (chat : Chat)
        → chat_of (to_ctcp msg) ≡ chat
        → is_panic (on_message env msg i)
          ≡ ltb (length msg.params) (shown_params (chat_of (to_ctcp msg)))
    go (Chat.offer pack) e = rw (e, on_message) (ground arith)
    go Chat.ignored e = rw (e, on_message) (ground arith)
    go Chat.shown e =
        rw (e, on_message)
          (is_panic-then (at msg.params 0) _ ∙ is_panic-at msg.params 0 ∙ ground arith)

is_panic-on_info :
    (env : Env) (msg : Message) (i : Handler)
    → is_panic (on_info env msg i) ≡ ltb (length msg.params) 1
unfolding on_info
is_panic-on_info env msg i = go msg.params refl
  where
    go :
        (ps : List Bytes)
        → msg.params ≡ ps
        → is_panic (on_info env msg i) ≡ ltb (length msg.params) 1
    go [] e = ground (arith, e)
    go (p ∷ ps) e = ground (arith, e)

is_panic-count_and_name {ℓ} :
    {B : Type ℓ} (ps : List Bytes) (f : Bytes → Bytes → B)
    → is_panic (at ps 2 >>= λ count. at ps 1 >>= λ name. ok (f count name)) ≡ ltb (length ps) 3
is_panic-count_and_name [] f = refl
is_panic-count_and_name (a ∷ []) f = refl
is_panic-count_and_name (a ∷ b ∷ []) f = refl
is_panic-count_and_name (a ∷ b ∷ c ∷ ps) f = ground arith

is_panic-on_list :
    (msg : Message) (i : Handler)
    → is_panic (on_list msg i) ≡ ltb (length msg.params) (list_params (buffer_for i))
unfolding on_list
is_panic-on_list msg i = go (buffer_for i) refl
  where
    go :
        (buffer : Option MapChannelListIndex)
        → buffer_for i ≡ buffer
        → is_panic (on_list msg i) ≡ ltb (length msg.params) (list_params (buffer_for i))
    go none e = rw (e, on_list) (ground arith)
    go (some idx) e = rw (e, on_list) (is_panic-count_and_name msg.params _)

is_panic-whois_user :
    (msg : Message) (i : Handler) → is_panic (whois_user msg i) ≡ ltb (length msg.params) 6
unfolding whois_user
is_panic-whois_user msg i = go msg.params refl
  where
    go :
        (ps : List Bytes)
        → msg.params ≡ ps
        → is_panic (whois_user msg i) ≡ ltb (length msg.params) 6
    go [] e = rw (e, whois_user) refl
    go (a ∷ []) e = rw (e, whois_user) refl
    go (a ∷ b ∷ []) e = rw (e, whois_user) refl
    go (a ∷ b ∷ c ∷ []) e = rw (e, whois_user) refl
    go (a ∷ b ∷ c ∷ d ∷ []) e = rw (e, whois_user) refl
    go (a ∷ b ∷ c ∷ d ∷ f ∷ []) e = rw (e, whois_user) refl
    go (a ∷ b ∷ c ∷ d ∷ f ∷ g ∷ ps) e = rw (e, whois_user) (ground arith)

is_panic-whois_server :
    (msg : Message) (i : Handler) → is_panic (whois_server msg i) ≡ ltb (length msg.params) 3
unfolding whois_server
is_panic-whois_server msg i =
    is_panic-then (at msg.params 2) _ ∙ is_panic-at msg.params 2 ∙ ground arith

is_panic-no_topic :
    (msg : Message) (i : Handler) → is_panic (no_topic msg i) ≡ ltb (length msg.params) 2
unfolding no_topic
is_panic-no_topic msg i =
    is_panic-then (at msg.params 1) _ ∙ is_panic-at msg.params 1 ∙ ground arith

is_panic-names_end :
    (msg : Message) (i : Handler) → is_panic (names_end msg i) ≡ ltb (length msg.params) 2
unfolding names_end
is_panic-names_end msg i =
    is_panic-then (at msg.params 1) _ ∙ is_panic-at msg.params 1 ∙ ground arith

is_panic-on_topic :
    (msg : Message) (i : Handler)
    → is_panic (on_topic msg i)
      ≡ ltb (length msg.params) (if msg.command == codes "TOPIC" then 1 else 2)
unfolding on_topic
is_panic-on_topic msg i = go (msg.command == codes "TOPIC") refl
  where
    go :
        (b : Bool)
        → (msg.command == codes "TOPIC") ≡ b
        → is_panic (on_topic msg i)
          ≡ ltb (length msg.params) (if msg.command == codes "TOPIC" then 1 else 2)
    go true e =
        rw (e, on_topic)
          (is_panic-then (at msg.params 0) _ ∙ is_panic-at msg.params 0 ∙ ground arith)
    go false e =
        rw (e, on_topic)
          (is_panic-then (at msg.params 1) _ ∙ is_panic-at msg.params 1 ∙ ground arith)

topic_word : (word : Bytes) → command_of word ≡ Command.topic → (word == codes "TOPIC") ≡ true
unfolding bytes_beq
topic_word word e =
    ap (λ w. w == codes "TOPIC") (command_of-wire word Command.topic e (λ h. ground (arith, h)))

topic_numeric :
    (word : Bytes) → command_of word ≡ Command.rpl_topic → (word == codes "TOPIC") ≡ false
unfolding bytes_beq
topic_numeric word e =
    ap (λ w. w == codes "TOPIC") (command_of-wire word Command.rpl_topic e (λ h. ground (arith, h)))

is_panic-handle_command :
    (env : Env) (msg : Message) (i : Handler) (command : Command)
    → command_of msg.command ≡ command
    → is_panic (handle_command env command msg i)
      ≡ ltb (length msg.params) (params_of command msg i)
unfolding handle_command
is_panic-handle_command env msg i Command.join e = is_panic-on_join env msg i
is_panic-handle_command env msg i Command.part e = is_panic-on_part msg i
is_panic-handle_command env msg i Command.topic e =
    is_panic-on_topic msg i
    ∙ ap (λ b. ltb (length msg.params) (if b then 1 else 2)) (topic_word msg.command e)
is_panic-handle_command env msg i Command.rpl_topic e =
    is_panic-on_topic msg i
    ∙ ap (λ b. ltb (length msg.params) (if b then 1 else 2)) (topic_numeric msg.command e)
is_panic-handle_command env msg i Command.privmsg e = is_panic-on_message env msg i
is_panic-handle_command env msg i Command.notice e = is_panic-on_message env msg i
is_panic-handle_command env msg i Command.rpl_welcome e = is_panic-on_info env msg i
is_panic-handle_command env msg i Command.rpl_yourhost e = is_panic-on_info env msg i
is_panic-handle_command env msg i Command.rpl_created e = is_panic-on_info env msg i
is_panic-handle_command env msg i Command.rpl_luserclient e = is_panic-on_info env msg i
is_panic-handle_command env msg i Command.rpl_luserop e = is_panic-on_info env msg i
is_panic-handle_command env msg i Command.rpl_luserunknown e = is_panic-on_info env msg i
is_panic-handle_command env msg i Command.rpl_luserchannels e = is_panic-on_info env msg i
is_panic-handle_command env msg i Command.rpl_luserme e = is_panic-on_info env msg i
is_panic-handle_command env msg i Command.rpl_whoisuser e = is_panic-whois_user msg i
is_panic-handle_command env msg i Command.rpl_whoisserver e = is_panic-whois_server msg i
is_panic-handle_command env msg i Command.rpl_notopic e = is_panic-no_topic msg i
is_panic-handle_command env msg i Command.rpl_endofnames e = is_panic-names_end msg i
is_panic-handle_command env msg i Command.rpl_list e = is_panic-on_list msg i
is_panic-handle_command env msg i _ e = ground arith

params_of-send :
    (command : Command) (res : Response) (msg : Message) (i : Handler)
    → params_of command msg (send res i) ≡ params_of command msg i
unfolding buffer_for send_json flag
params_of-send Command.rpl_list res msg i = refl
params_of-send _ res msg i = refl

-- What follows the report sees the handler as it was, or with one response more.
is_panic-report_error :
    (msg : Message) (i : Handler) (rest : Handler → Outcome Handler) (b : Bool)
    → is_panic (rest i) ≡ b
    → ((res : Response) → is_panic (rest (send res i)) ≡ b)
    → is_panic (report_error msg i >>= rest) ≡ (is_empty msg.command || b)
unfolding report_error
is_panic-report_error msg i rest b quiet loud = go msg.command refl msg.params refl
  where
    sent_or_not :
        (sends : Bool) (res : Response)
        → is_panic ((if sends then ok (send res i) else ok i) >>= rest) ≡ b
    sent_or_not true res = loud res
    sent_or_not false res = quiet

    go :
        (word : Bytes)
        → msg.command ≡ word
        → (ps : List Bytes) → msg.params ≡ ps
        → is_panic (report_error msg i >>= rest) ≡ (is_empty msg.command || b)
    go [] e ps ep = rw (e, report_error) refl
    go (c ∷ word) e [] ep = rw (e, ep, report_error) quiet
    go (c ∷ word) e (p ∷ []) ep = rw (e, ep, report_error) quiet
    go (c ∷ word) e (p ∷ q ∷ ps) ep = rw (e, ep, report_error) (sent_or_not _ _)

-- `dispatchMessage` panics exactly when the command is empty, or when there are fewer parameters than the
-- handler of the command indexes.
pub dispatch_message-panic_iff :
    (env : Env) (msg : Message) (i : Handler)
    → is_panic (dispatch_message env msg i)
      ≡ (is_empty msg.command || ltb (length msg.params) (params_of (command_of msg.command) msg i))
unfolding dispatch_message
dispatch_message-panic_iff env msg i =
    let command = command_of msg.command in
    is_panic-report_error msg i (λ j. handle_command env command msg j)
      (ltb (length msg.params) (params_of command msg i))
      (is_panic-handle_command env msg i command refl)
      (λ res.
        is_panic-handle_command env msg (send res i) command refl
        ∙ ap (λ n. ltb (length msg.params) n) (params_of-send command res msg i))
