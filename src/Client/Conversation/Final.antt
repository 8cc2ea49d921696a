-- ===== src/Client/Conversation/Final.antt =====
-- conversation.ts: what can happen to a session after `disconnect`.
use converger.Prelude.{
  ℕ, ◌≡◌, ◌∙◌, min, Bool, true, false, Option, none, some, String, List, [], ◌∷◌, arith, string_eq,
}
use converger.Js.Set
use converger.Client.Frames.{ClientFrame, ClientMessage, JsNumber}
use converger.Client.Outbox.Entries.{OutboxEntry}
use converger.Client.Outbox.Store
use converger.Client.Outbox.Store.{Stored}
use converger.Client.Token
use converger.Client.Token.{TokenRequestReason, refresh, ActiveToken}
use converger.Client.Conversation.State.{
  Conversation, Env, Timer, TransportKind, Ready, transport_send, save_state, set_state,
  clear_timer,
}
use converger.Client.Conversation.Outbound.{flush, send, retry_fired, schedule_retry}
use converger.Client.Conversation.Inbound.{schedule_refresh, fetch_token, end_replay, gap_fired}
use converger.Client.Conversation.Handlers.{on_attached, sync_fired}
use converger.Client.Conversation.Lifecycle.{
  clear_timers, reject_waiting, disconnect, discard_outbox, connect_begin, connect_failed,
  connect_ready, start, resume_begin, resume_end, resume_from, resume_loaded as loaded_state,
  resume_watermark, open_session,
}
use converger.Client.Conversation.Session.{
  Event, step, run, typing, mark_read, refresh_done, refresh_failed, fire, frame, close, attached,
  connect, failed, ready, reconnect_timer, refresh_timer, replay_timer, gap_timer, sync_timer,
  retry_timer, refreshed, refresh_error, fetched, send_message, set_typing, read_up_to, begin,
  resume, resume_loaded, discard, stop,
}

-- From one state to the other, no transport comes or goes and nothing goes on the wire.
record IsSilent (a b : Conversation) : Type 0 where
  stopped : b.stopped ≡ a.stopped
  transport : b.transport ≡ a.transport
  wire : b.sending.wire ≡ a.sending.wire

IsSilent-trans : {a b c : Conversation} → IsSilent a b → IsSilent b c → IsSilent a c
IsSilent-trans p q = ground arith

transport_send-IsSilent :
    (env : Env) (f : ClientFrame) (c : Conversation)
    → c.transport ≡ none
    → IsSilent c (transport_send env f c)
unfolding transport_send
transport_send-IsSilent env f c h = ground arith

flush-IsSilent : (env : Env) (c : Conversation) → c.transport ≡ none → IsSilent c (flush env c)
unfolding flush
flush-IsSilent env c h = ground arith

save_state-IsSilent : (c : Conversation) → IsSilent c (save_state c)
unfolding save_state
save_state-IsSilent c = ground arith

schedule_refresh-IsSilent : (env : Env) (c : Conversation) → IsSilent c (schedule_refresh env c)
unfolding schedule_refresh
schedule_refresh-IsSilent env c = ground arith

fetch_token-IsSilent :
    (reason : TokenRequestReason) (c : Conversation) → IsSilent c (fetch_token reason c)
unfolding fetch_token
fetch_token-IsSilent reason c = ground arith

end_replay-IsSilent :
    (env : Env) (b : Bool) (c : Conversation) → c.transport ≡ none → IsSilent c (end_replay env b c)
unfolding end_replay
end_replay-IsSilent env b c h =
    ground (arith, flush-IsSilent env (record c { replay_timer = none; replaying = false }))

gap_fired-IsSilent :
    (env : Env) (n : ℕ) (c : Conversation) → c.transport ≡ none → IsSilent c (gap_fired env n c)
unfolding gap_fired
gap_fired-IsSilent env n c h = ground (
  arith,
  transport_send-IsSilent env (ClientFrame.sync c.receive.watermark)
      (record c { gap_timer = none }),
)

sync_fired-IsSilent :
    (env : Env) (n : ℕ) (c : Conversation) → c.transport ≡ none → IsSilent c (sync_fired env n c)
unfolding sync_fired
sync_fired-IsSilent env n c h = ground (
  arith,
  transport_send-IsSilent env (ClientFrame.sync (min n c.receive.watermark))
      (record c { sync_timer = none }),
)

retry_fired-IsSilent :
    (env : Env) (c : Conversation) → c.transport ≡ none → IsSilent c (retry_fired env c)
unfolding retry_fired schedule_retry
retry_fired-IsSilent env c h = ground (arith, flush-IsSilent env (record c { retry_timer = none }))

on_attached-IsSilent :
    (env : Env) (s : Option Stored) (c : Conversation)
    → c.transport ≡ none
    → IsSilent c (on_attached env s c)
unfolding on_attached
on_attached-IsSilent env none c h =
    IsSilent-trans (save_state-IsSilent c)
      (flush-IsSilent env (save_state c) (ground (arith, save_state-IsSilent c)))
on_attached-IsSilent env (some st) c h =
    let b = record c {
      sending = record c.sending { store = (Store.attach_end st c.sending.store).0 };
    } in
    let saved : IsSilent c (save_state b) = ground (arith, save_state-IsSilent b) in
    IsSilent-trans saved (flush-IsSilent env (save_state b) (ground (arith, saved.transport)))

send-IsSilent :
    (env : Env) (m : ClientMessage) (c : Conversation)
    → c.transport ≡ none
    → IsSilent c (send env m c).0
unfolding send
send-IsSilent env m c h =
    let entry : OutboxEntry = record {
      client_id = m.client_id;
      frame = m;
      created_at = env.now;
      attempts = 0;
    } in
    let queued = record c {
      sending = record c.sending {
        waiting = Set.add m.client_id c.sending.waiting;
        store = Store.add entry c.sending.store;
      };
    } in
    ground (arith, flush-IsSilent env queued)

typing-IsSilent :
    (env : Env) (b : Bool) (c : Conversation) → c.transport ≡ none → IsSilent c (typing env b c).0
unfolding typing
typing-IsSilent env b c h = ground (arith, transport_send-IsSilent env (ClientFrame.typing b) c)

mark_read-IsSilent :
    (env : Env) (n : Option ℕ) (c : Conversation)
    → c.transport ≡ none
    → IsSilent c (mark_read env n c).0
unfolding mark_read
mark_read-IsSilent env none c h =
    ground (arith, transport_send-IsSilent env (ClientFrame.read c.receive.watermark) c)
mark_read-IsSilent env (some n) c h =
    ground (arith, transport_send-IsSilent env (ClientFrame.read n) c)

refresh_done-IsSilent :
    (env : Env) (t : ActiveToken) (c : Conversation)
    → c.transport ≡ none
    → IsSilent c (refresh_done env t c)
unfolding refresh_done
refresh_done-IsSilent env t c h =
    ground (
      arith,
      schedule_refresh-IsSilent env (record c { tokens = Token.fetch_end (some t) c.tokens }),
    )

refresh_failed-IsSilent : (code : String) (c : Conversation) → IsSilent c (refresh_failed code c)
unfolding refresh_failed
refresh_failed-IsSilent code c = ground arith

connect_begin-IsSilent : (c : Conversation) → c.stopped ≡ true → IsSilent c (connect_begin c)
unfolding connect_begin
connect_begin-IsSilent c h = ground arith

connect_failed-IsSilent :
    (env : Env) (n : ℕ) (code : String) (c : Conversation)
    → c.stopped ≡ true
    → IsSilent c (connect_failed env n code c)
unfolding connect_failed
connect_failed-IsSilent env n code c h = ground arith

connect_ready-IsSilent :
    (n : ℕ) (k : TransportKind) (c : Conversation)
    → c.stopped ≡ true
    → IsSilent c (connect_ready n k c)
unfolding connect_ready
connect_ready-IsSilent n k c h = ground arith

open_session-IsSilent : (c : Conversation) → c.stopped ≡ true → IsSilent c (open_session c)
open_session-IsSilent c h =
    ground (arith, connect_begin-IsSilent (record c { ready = Ready.pending }))

start-IsSilent : (c : Conversation) → c.stopped ≡ true → IsSilent c (start c).0
unfolding start
start-IsSilent c h =
    ground (arith, open_session-IsSilent (record c { started = true; conversation_id = none }))

resume_begin-IsSilent : (c : Conversation) → IsSilent c (resume_begin c).0
unfolding resume_begin
resume_begin-IsSilent c = ground arith

resume_from-IsSilent :
    (n : Option ℕ) (c : Conversation) → c.stopped ≡ true → IsSilent c (resume_from n c).0
unfolding resume_from
resume_from-IsSilent none c h = ground arith
resume_from-IsSilent (some n) c h =
    ground
      (arith, open_session-IsSilent (record c { receive = record c.receive { watermark = n } }))

resume_end-IsSilent :
    (s : Stored) (n : Option JsNumber) (c : Conversation)
    → c.stopped ≡ true
    → IsSilent c (resume_end s n c).0
unfolding resume_end
resume_end-IsSilent s n c h =
    let b = loaded_state s c in ground (arith, resume_from-IsSilent (resume_watermark n b) b)

discard_outbox-IsSilent : (c : Conversation) → IsSilent c (discard_outbox c)
unfolding discard_outbox reject_waiting
discard_outbox-IsSilent c = ground arith

disconnect-IsSilent :
    (c : Conversation) → c.stopped ≡ true → c.transport ≡ none → IsSilent c (disconnect c)
unfolding disconnect clear_timers set_state reject_waiting
disconnect-IsSilent c h k = ground arith

-- A timer's callback runs or does not.
fire-IsSilent :
    (t : Option Timer) (callback : ℕ → Conversation → Conversation) (c : Conversation)
    → ((n : ℕ) → IsSilent c (callback n c))
    → IsSilent c (fire t callback c)
unfolding fire
fire-IsSilent none callback c h = ground arith
fire-IsSilent (some t) callback c h = ground (arith, h t.argument)

step-IsSilent :
    (env : Env) (e : Event) (c : Conversation)
    → c.stopped ≡ true
    → c.transport ≡ none
    → IsSilent c (step env e c)
unfolding step
step-IsSilent env (frame attempt f) c h k = ground arith
step-IsSilent env (close attempt cl) c h k = ground arith
step-IsSilent env (attached stored) c h k = on_attached-IsSilent env stored c k
step-IsSilent env connect c h k = connect_begin-IsSilent c h
step-IsSilent env (failed token code) c h k = connect_failed-IsSilent env token code c h
step-IsSilent env (ready token kind) c h k = connect_ready-IsSilent token kind c h
step-IsSilent env reconnect_timer c h k = fire-IsSilent c.reconnect_timer _ c λ n.
    ground
      (arith, connect_begin-IsSilent (record c { reconnect_timer = clear_timer c.reconnect_timer }))
step-IsSilent env refresh_timer c h k = fire-IsSilent c.refresh_timer _ c λ n.
    ground (
      arith,
      fetch_token-IsSilent refresh (record c { refresh_timer = clear_timer c.refresh_timer }),
    )
step-IsSilent env replay_timer c h k =
    fire-IsSilent c.replay_timer _ c λ n. end_replay-IsSilent env true c k
step-IsSilent env gap_timer c h k = fire-IsSilent c.gap_timer _ c λ n. gap_fired-IsSilent env n c k
step-IsSilent env sync_timer c h k =
    fire-IsSilent c.sync_timer _ c λ n. sync_fired-IsSilent env n c k
step-IsSilent env retry_timer c h k =
    fire-IsSilent c.retry_timer _ c λ n. retry_fired-IsSilent env c k
step-IsSilent env (refreshed token) c h k = refresh_done-IsSilent env token c k
step-IsSilent env (refresh_error code) c h k = refresh_failed-IsSilent code c
step-IsSilent env (fetched token) c h k = ground arith
step-IsSilent env (send_message m) c h k = send-IsSilent env m c k
step-IsSilent env (set_typing on) c h k = typing-IsSilent env on c k
step-IsSilent env (read_up_to seq) c h k = mark_read-IsSilent env seq c k
step-IsSilent env begin c h k = start-IsSilent c h
step-IsSilent env resume c h k = resume_begin-IsSilent c
step-IsSilent env (resume_loaded stored watermark) c h k = resume_end-IsSilent stored watermark c h
step-IsSilent env discard c h k = discard_outbox-IsSilent c
step-IsSilent env stop c h k = disconnect-IsSilent c h k

run-IsSilent :
    (es : List (Env × Event)) (c : Conversation)
    → c.stopped ≡ true
    → c.transport ≡ none
    → IsSilent c (run es c)
unfolding run
run-IsSilent [] c h k = ground arith
run-IsSilent ((env, e) ∷ es) c h k =
    let p = step-IsSilent env e c h k in
    IsSilent-trans p
      (run-IsSilent es (step env e c) (ground (arith, p.stopped)) (ground (arith, p.transport)))

disconnect_stops :
    (c : Conversation)
    → ((disconnect c).stopped ≡ true)
      × ((disconnect c).transport ≡ none)
      × ((disconnect c).sending.wire ≡ c.sending.wire)
unfolding disconnect clear_timers set_state reject_waiting
disconnect_stops c = ground arith

-- A disconnect is final: whatever happens to the session afterwards, it stays stopped, it has no
-- transport, and no frame goes on the wire.
pub disconnect_final :
    (es : List (Env × Event)) (c : Conversation)
    → ((run es (disconnect c)).stopped ≡ true)
      × ((run es (disconnect c)).transport ≡ none)
      × ((run es (disconnect c)).sending.wire ≡ c.sending.wire)
disconnect_final es c =
    let (stopped, gone, wire) = disconnect_stops c in
    let p = run-IsSilent es (disconnect c) stopped gone in
    (p.stopped ∙ stopped, p.transport ∙ gone, p.wire ∙ wire)
