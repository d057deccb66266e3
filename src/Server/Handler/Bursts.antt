-- ===== src/Server/Handler/Bursts.antt =====
-- The replies that come in several messages: the message of the day, and the list of channels.
use dispatch.Base.{
  Bytes, List, [], ◌∷◌, ◌++◌, codes, nat_eq, bytes_eq, bytes_beq, Outcome, ok, panic, ◌>>=◌, map,
  All, ◌≡◌, refl, sym, ap, ◌∙◌, append-nil, append_assoc,
}
use dispatch.Irc.Const.{Command, command_of, wire}
use dispatch.Irc.Message.{Message, last_param}
use dispatch.Server.Handler.{Env, Handler, host_of, send}
use dispatch.Server.Handler.Dispatch.{report_error, handle_command, dispatch_message}
use dispatch.Server.Handler.Replies.{motd_end, motd_start, no_motd, on_motd}
use dispatch.Server.Json.{Response}

-- Messages that are dispatched one after the other
abbrev pub dispatch_all : Env → List Message → Handler → Outcome Handler
dispatch_all env [] i = ok i
dispatch_all env (m ∷ ms) i = dispatch_message env m i >>= dispatch_all env ms

then_both :
    (o : Outcome Handler) (whole first second : Handler → Outcome Handler)
    → ((j : Handler) → whole j ≡ (first j >>= second))
    → (o >>= whole) ≡ ((o >>= first) >>= second)
then_both (ok j) whole first second h = h j
then_both panic whole first second h = refl

pub dispatch_all-append :
    (env : Env) (ms ns : List Message) (i : Handler)
    → dispatch_all env (ms ++ ns) i ≡ (dispatch_all env ms i >>= dispatch_all env ns)
dispatch_all-append env [] ns i = refl
dispatch_all-append env (m ∷ ms) ns i =
    then_both (dispatch_message env m i) (dispatch_all env (ms ++ ns)) (dispatch_all env ms)
      (dispatch_all env ns) (λ j. dispatch_all-append env ms ns j)

-- A reply that is no error
report_quiet :
    (msg : Message) (i : Handler) (word : Bytes)
    → msg.command ≡ b'3' ∷ word
    → report_error msg i ≡ ok i
unfolding report_error
report_quiet msg i word e = go msg.params refl
  where
    go : (ps : List Bytes) → msg.params ≡ ps → report_error msg i ≡ ok i
    go [] ep = rw (e, ep, report_error) refl
    go (p ∷ []) ep = rw (e, ep, report_error) refl
    go (p ∷ q ∷ ps) ep = rw (e, ep, report_error) refl

pub dispatch_reply :
    (env : Env) (msg : Message) (i : Handler) (word : Bytes)
    → msg.command ≡ b'3' ∷ word
    → dispatch_message env msg i ≡ handle_command env (command_of (b'3' ∷ word)) msg i
unfolding dispatch_message
dispatch_reply env msg i word e = rw (report_quiet msg i word e, e) refl

abbrev pub Carries : Command → Message → Type 0
Carries command m = m.command ≡ wire command

-- The lines of the message of the day are appended in order.
motd_lines :
    (env : Env) (ms : List Message) (i : Handler)
    → All (Carries Command.rpl_motd) ms
    → dispatch_all env ms i
      ≡ ok (record i { motd = record i.motd { content = i.motd.content ++ map last_param ms } })
unfolding on_motd
motd_lines env [] i h =
    ap (λ l. ok (record i { motd = record i.motd { content = l } }))
      (sym (append-nil i.motd.content))
motd_lines env (m ∷ ms) i h =
    let after : Handler = on_motd m i in
    ap (λ o. o >>= dispatch_all env ms) (line m i h.0)
    ∙ motd_lines env ms after h.1
    ∙ ap (λ l. ok (record i { motd = record i.motd { content = l } }))
        (append_assoc i.motd.content (last_param m ∷ []) (map last_param ms))
  where
    line :
        (m : Message) (i : Handler)
        → m.command ≡ codes "372"
        → dispatch_message env m i ≡ ok (on_motd m i)
    line m i e =
        dispatch_reply env m i (codes "72") e ∙ unfold command_of handle_command bytes_beq in refl

-- A title, any number of lines and the end: one response with the title and all the lines in order, and the
-- buffer is empty again.
pub motd_burst :
    (env : Env) (begin end : Message) (ms : List Message) (i : Handler)
    → i.motd ≡ no_motd
    → Carries Command.rpl_motdstart begin
    → All (Carries Command.rpl_motd) ms
    → Carries Command.rpl_endofmotd end
    → dispatch_all env (begin ∷ ms ++ end ∷ []) i
      ≡ ok
          (record (send
            (Response.motd (record {
              network = host_of i;
              title = last_param begin;
              content = map last_param ms;
            }))
            i) { motd = no_motd })
unfolding motd_start motd_end
motd_burst env begin end ms i he hb hm hd =
    ap (λ o. o >>= dispatch_all env (ms ++ end ∷ [])) (first begin i hb)
    ∙ dispatch_all-append env ms (end ∷ []) (motd_start begin i)
    ∙ ap (λ o. o >>= dispatch_all env (end ∷ [])) (motd_lines env ms (motd_start begin i) hm)
    ∙ ap (λ o. o >>= dispatch_all env []) (last end _ hd)
    ∙ ap
        (λ m.
          ok
            (record (send
              (Response.motd (record m {
                network = host_of i;
                title = last_param begin;
                content = m.content ++ map last_param ms;
              }))
              i) { motd = no_motd }))
        he
  where
    first :
        (m : Message) (i : Handler)
        → m.command ≡ codes "375"
        → dispatch_message env m i ≡ ok (motd_start m i)
    first m i e =
        dispatch_reply env m i (codes "75") e ∙ unfold command_of handle_command bytes_beq in refl

    last :
        (m : Message) (i : Handler)
        → m.command ≡ codes "376"
        → dispatch_message env m i ≡ ok (motd_end i)
    last m i e =
        dispatch_reply env m i (codes "76") e ∙ unfold command_of handle_command bytes_beq in refl
