-- ===== src/Client/Conversation/GapForever.antt =====
-- conversation.ts: runs of a session whose gap timer was cleared by #onClose.
use converger.Prelude.{
  ℕ, ◌+◌, ◌≡◌, refl, ◌∙◌, Bool, true, false, Option, none, some, String, List, [], ◌∷◌, arith,
}
use converger.Client.Frames.{ClientFrame, ClientMessage, JsNumber}
use converger.Client.Outbox.Store.{Stored}
use converger.Client.Token.{ActiveToken, TokenRequestReason, rejected, refresh}
use converger.Client.CloseCode
use converger.Client.Conversation.State.{
  Conversation, Env, Timer, TransportClose, TransportKind, clear_timer, save_state, set_state,
  transport_send, Ready, emit, Output,
}
use converger.Client.Conversation.Outbound.{flush, schedule_retry, retry_fired, send}
use converger.Client.Conversation.Inbound.{
  schedule_refresh, fetch_token, end_replay, check_gap, gap_fired,
}
use converger.Client.Conversation.Handlers.{on_attached, sync_fired}
use converger.Client.Conversation.Lifecycle.{
  close_session, clear_timers, disconnect, discard_outbox, reject_waiting, fall_back,
  schedule_reconnect, drop_connection, on_unauthorized, on_close, connect_begin, connect_failed,
  connect_ready, start, resume_begin, resume_end, resume_from, resume_loaded, resume_watermark,
  fatal_code,
}
use converger.Client.Conversation.Session.{
  Event, step, run, fire, typing, mark_read, refresh_done, refresh_failed,
}
use converger.Client.Conversation.GapTimer.{
  IsStuck, is_dead, dead-clear_timer, gap-transport_send, gap-end_replay, gap-check_gap,
}
use converger.Client.Conversation.GapStuck.{on_frame-IsStuck}

dead_drop_connection : (env : Env) (c : Conversation) → IsStuck c → IsStuck (drop_connection env c)
unfolding drop_connection
dead_drop_connection env c h =
    let gone = record c { transport = none; sending = record c.sending { in_flight = [] } } in
    dead-clear_timer (end_replay env false gone).gap_timer (rw (gap-end_replay env false gone) h)

close_session-IsStuck :
    (code : String) (k : TransportClose) (c : Conversation)
    → IsStuck c
    → IsStuck (close_session code k c)
unfolding close_session clear_timers set_state reject_waiting
close_session-IsStuck code k c h = ground arith

disconnect-IsStuck : (c : Conversation) → IsStuck c → IsStuck (disconnect c)
unfolding disconnect clear_timers set_state reject_waiting
disconnect-IsStuck c h = ground arith

gap-fetch_token :
    (r : TokenRequestReason) (c : Conversation) → (fetch_token r c).gap_timer ≡ c.gap_timer
unfolding fetch_token
gap-fetch_token r c = ground arith

gap-fall_back : (opened : Bool) (c : Conversation) → (fall_back opened c).gap_timer ≡ c.gap_timer
unfolding fall_back
gap-fall_back opened c = ground arith

schedule_reconnect-IsStuck :
    (env : Env) (k : TransportClose) (c : Conversation)
    → IsStuck c
    → IsStuck (schedule_reconnect env k c)
unfolding schedule_reconnect set_state
schedule_reconnect-IsStuck env k c h =
    let c1 = record c { attempt = c.attempt + 1 } in
    ground (
      arith,
      close_session-IsStuck "disconnected" k c h,
      close_session-IsStuck "reconnect_failed" k c1 h,
      gap-fall_back k.opened c1,
    )

on_unauthorized-IsStuck :
    (env : Env) (k : TransportClose) (c : Conversation)
    → IsStuck c
    → IsStuck (on_unauthorized env k c)
unfolding on_unauthorized
on_unauthorized-IsStuck env k c h =
    let c1 = record c { auth_rejections = c.auth_rejections + 1 } in
    ground (
      arith,
      close_session-IsStuck "unauthorized" k c1 h,
      schedule_reconnect-IsStuck env k (fetch_token rejected c1),
      gap-fetch_token rejected c1,
    )

-- What follows the loss of the connection leaves a dead timer dead.
on_close_from :
    (env : Env) (k : TransportClose) (c : Conversation)
    → IsStuck (drop_connection env c)
    → IsStuck (on_close env k c)
unfolding on_close
on_close_from env k c h1 =
    let c1 = drop_connection env c in
    ground (
      arith,
      close_session-IsStuck (fatal_code k.code) k c1 h1,
      on_unauthorized-IsStuck env k c1 h1,
      schedule_reconnect-IsStuck env k c1 h1,
    )

on_close-IsStuck :
    (env : Env) (k : TransportClose) (c : Conversation) → IsStuck c → IsStuck (on_close env k c)
on_close-IsStuck env k c h = on_close_from env k c (dead_drop_connection env c h)

connect_begin-IsStuck : (c : Conversation) → IsStuck c → IsStuck (connect_begin c)
unfolding connect_begin set_state
connect_begin-IsStuck c h = ground arith

connect_failed-IsStuck :
    (env : Env) (token : ℕ) (code : String) (c : Conversation)
    → IsStuck c
    → IsStuck (connect_failed env token code c)
unfolding connect_failed
connect_failed-IsStuck env token code c h =
    let c1 = emit (Output.error code) c in
    ground (
      arith,
      close_session-IsStuck code
          (record { code = CloseCode.unauthorized; opened = false; retry_after_ms = none }) c1 h,
      schedule_reconnect-IsStuck env (record { code = 1006; opened = false; retry_after_ms = none })
          c1 h,
    )

connect_ready-IsStuck :
    (token : ℕ) (kind : TransportKind) (c : Conversation)
    → IsStuck c
    → IsStuck (connect_ready token kind c)
unfolding connect_ready
connect_ready-IsStuck token kind c h = ground arith

on_attached-IsStuck :
    (env : Env) (st : Option Stored) (c : Conversation) → IsStuck c → IsStuck (on_attached env st c)
unfolding on_attached flush save_state
on_attached-IsStuck env none c h = ground arith
on_attached-IsStuck env (some st) c h = ground arith

retry_fired-IsStuck : (env : Env) (c : Conversation) → IsStuck c → IsStuck (retry_fired env c)
unfolding retry_fired flush schedule_retry
retry_fired-IsStuck env c h = ground arith

send-IsStuck :
    (env : Env) (m : ClientMessage) (c : Conversation) → IsStuck c → IsStuck (send env m c).0
unfolding send flush
send-IsStuck env m c h = ground arith

resume_from-IsStuck : (w : Option ℕ) (c : Conversation) → IsStuck c → IsStuck (resume_from w c).0
unfolding resume_from
resume_from-IsStuck none c h = h
resume_from-IsStuck (some n) c h =
    connect_begin-IsStuck
      (record c { ready = Ready.pending; receive = record c.receive { watermark = n } }) h

resume_end-IsStuck :
    (st : Stored) (w : Option JsNumber) (c : Conversation)
    → IsStuck c
    → IsStuck (resume_end st w c).0
unfolding resume_end
resume_end-IsStuck st w c h =
    let c1 = resume_loaded st c in resume_from-IsStuck (resume_watermark w c1) c1 h

fire-IsStuck :
    (t : Option Timer) (callback : ℕ → Conversation → Conversation) (c : Conversation)
    → ((n : ℕ) → IsStuck (callback n c))
    → IsStuck c
    → IsStuck (fire t callback c)
unfolding fire
fire-IsStuck none callback c k h = h
fire-IsStuck (some t) callback c k h = ground (arith, k t.argument)

sync_fired-IsStuck :
    (env : Env) (n : ℕ) (c : Conversation) → IsStuck c → IsStuck (sync_fired env n c)
unfolding sync_fired transport_send
sync_fired-IsStuck env n c h = ground arith

refresh_done-IsStuck :
    (env : Env) (t : ActiveToken) (c : Conversation) → IsStuck c → IsStuck (refresh_done env t c)
unfolding refresh_done transport_send schedule_refresh
refresh_done-IsStuck env t c h = ground arith

gap_fired_never :
    (env : Env) (t : Option Timer) (c : Conversation)
    → is_dead t ≡ true
    → fire t (λ n d. gap_fired env n d) c ≡ c
unfolding fire
gap_fired_never env none c h = refl
gap_fired_never env (some t) c h = ground arith

signal-IsStuck :
    (env : Env) (f : ClientFrame) (c : Conversation) → IsStuck c → IsStuck (transport_send env f c)
signal-IsStuck env f c h = rw (gap-transport_send env f c) h

typing-IsStuck :
    (env : Env) (on : Bool) (c : Conversation) → IsStuck c → IsStuck (typing env on c).0
unfolding typing
typing-IsStuck env on c h = ground (arith, signal-IsStuck env (ClientFrame.typing on) c h)

mark_read-IsStuck :
    (env : Env) (n : Option ℕ) (c : Conversation) → IsStuck c → IsStuck (mark_read env n c).0
unfolding mark_read
mark_read-IsStuck env none c h =
    ground (arith, signal-IsStuck env (ClientFrame.read c.receive.watermark) c h)
mark_read-IsStuck env (some n) c h = ground (arith, signal-IsStuck env (ClientFrame.read n) c h)

start-IsStuck : (c : Conversation) → IsStuck c → IsStuck (start c).0
unfolding start
start-IsStuck c h = ground (
  arith,
  connect_begin-IsStuck (record c { started = true; conversation_id = none; ready = Ready.pending })
      h,
)

resume_begin-IsStuck : (c : Conversation) → IsStuck c → IsStuck (resume_begin c).0
unfolding resume_begin
resume_begin-IsStuck c h = ground arith

-- A step leaves a dead gap timer dead.
step-IsStuck : (env : Env) (e : Event) (c : Conversation) → IsStuck c → IsStuck (step env e c)
unfolding step
step-IsStuck env (Event.frame n f) c h = ground (arith, on_frame-IsStuck env f c h)
step-IsStuck env (Event.close n k) c h = ground (arith, on_close-IsStuck env k c h)
step-IsStuck env (Event.attached st) c h = on_attached-IsStuck env st c h
step-IsStuck env Event.connect c h = connect_begin-IsStuck c h
step-IsStuck env (Event.failed token code) c h = connect_failed-IsStuck env token code c h
step-IsStuck env (Event.ready token kind) c h = connect_ready-IsStuck token kind c h
step-IsStuck env Event.reconnect_timer c h =
    fire-IsStuck c.reconnect_timer
      (λ _ d. connect_begin (record d { reconnect_timer = clear_timer d.reconnect_timer })) c
      (λ _. connect_begin-IsStuck (record c { reconnect_timer = clear_timer c.reconnect_timer }) h)
      h
step-IsStuck env Event.refresh_timer c h =
    fire-IsStuck c.refresh_timer
      (λ _ d. fetch_token refresh (record d { refresh_timer = clear_timer d.refresh_timer })) c
      (λ _.
        rw (gap-fetch_token refresh (record c { refresh_timer = clear_timer c.refresh_timer })) h)
      h
step-IsStuck env Event.replay_timer c h =
    fire-IsStuck c.replay_timer (λ _ d. end_replay env true d) c
      (λ _. rw (gap-end_replay env true c) h) h
step-IsStuck env Event.gap_timer c h = rw (gap_fired_never env c.gap_timer c h) h
step-IsStuck env Event.sync_timer c h =
    fire-IsStuck c.sync_timer (λ n d. sync_fired env n d) c (λ n. sync_fired-IsStuck env n c h) h
step-IsStuck env Event.retry_timer c h =
    fire-IsStuck c.retry_timer (λ _ d. retry_fired env d) c (λ _. retry_fired-IsStuck env c h) h
step-IsStuck env (Event.refreshed token) c h = refresh_done-IsStuck env token c h
step-IsStuck env (Event.refresh_error code) c h = unfold refresh_failed in h
step-IsStuck env (Event.fetched token) c h = h
step-IsStuck env (Event.send_message m) c h = send-IsStuck env m c h
step-IsStuck env (Event.set_typing on) c h = typing-IsStuck env on c h
step-IsStuck env (Event.read_up_to seq) c h = mark_read-IsStuck env seq c h
step-IsStuck env Event.begin c h = start-IsStuck c h
step-IsStuck env Event.resume c h = resume_begin-IsStuck c h
step-IsStuck env (Event.resume_loaded st w) c h = resume_end-IsStuck st w c h
step-IsStuck env Event.discard c h = unfold discard_outbox reject_waiting in h
step-IsStuck env Event.stop c h = disconnect-IsStuck c h

run-IsStuck : (es : List (Env × Event)) (c : Conversation) → IsStuck c → IsStuck (run es c)
unfolding run
run-IsStuck [] c h = h
run-IsStuck ((env, e) ∷ es) c h = run-IsStuck es (step env e c) (step-IsStuck env e c h)

dead_gap : (t : Option Timer) (k : Timer) → t ≡ some k → is_dead (clear_timer t) ≡ true
dead_gap t k e = ground arith

closed_gap :
    (env : Env) (c : Conversation) (t : Timer)
    → c.gap_timer ≡ some t
    → IsStuck (drop_connection env c)
unfolding drop_connection
closed_gap env c t h =
    let gone = record c { transport = none; sending = record c.sending { in_flight = [] } } in
    dead_gap (end_replay env false gone).gap_timer t (gap-end_replay env false gone ∙ h)

-- Where a connection is lost while the gap timer has a handle, then whatever happens to the session
-- afterwards, no gap is looked at again: a missing seq arms no timer, and the timer does nothing.
pub gap_never_again :
    (env : Env) (k : TransportClose) (c : Conversation) (t : Timer) (es : List (Env × Event))
    → c.gap_timer ≡ some t
    → ((n : ℕ) → check_gap n (run es (on_close env k c)) ≡ run es (on_close env k c))
      × ((env' : Env)
          → step env' Event.gap_timer (run es (on_close env k c)) ≡ run es (on_close env k c))
unfolding step
gap_never_again env k c t es h =
    let d = run es (on_close env k c) in
    let stuck = run-IsStuck es (on_close env k c) (on_close_from env k c (closed_gap env c t h)) in
    (λ n. gap-check_gap n d stuck, λ env'. gap_fired_never env' d.gap_timer d stuck)
