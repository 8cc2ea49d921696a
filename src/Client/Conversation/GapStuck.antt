-- ===== src/Client/Conversation/GapStuck.antt =====
-- conversation.ts: the handlers and the handle of a gap timer that was cleared.
use converger.Prelude.{
  ℕ, ◌≡◌, refl, ◌∙◌, true, Option, none, some, String, arith, inl, inr, Option-cases,
}
use converger.Client.Frames.{
  is_persistent, ServerFrame, ClientFrame, AckFrame, ErrorFrame, WelcomeData, OtherFrame,
}
use converger.Client.Receive.Watermark.{reset}
use converger.Client.Token
use converger.Client.Token.{ActiveToken}
use converger.Client.Conversation.State.{
  Conversation, Env, TransportClose, ConnectionState, save_state, set_state, transport_send, emit,
  Output, open_,
}
use converger.Client.Conversation.Outbound.{flush, schedule_retry, settle}
use converger.Client.Conversation.Inbound.{
  schedule_refresh, fetch_token, arm_replay_timer, end_replay, record_ack, on_ack,
}
use converger.Client.Conversation.Handlers.{
  on_welcome, retry_send, fail_send, replay_unavailable, invalid_watermark, session_error, on_error,
  on_other, replay_truncated, on_frame, adopt_welcome, begin_replay, attach_store, resolve_ready,
  failed_send,
}
use converger.Client.Conversation.GapTimer.{
  IsStuck, gap-flush, gap-save_state, gap-transport_send, gap-schedule_refresh, gap-end_replay,
  gap-settle, gap-record_seq, gap-check_gap, on_persistent-IsStuck,
}

gap-record_ack : (seq : Option ℕ) (c : Conversation) → (record_ack seq c).gap_timer ≡ c.gap_timer
gap-record_ack none c = refl
gap-record_ack (some n) c = gap-record_seq n c

pub gap-on_ack :
    (env : Env) (f : AckFrame) (c : Conversation) → (on_ack env f c).gap_timer ≡ c.gap_timer
unfolding on_ack
gap-on_ack env f c =
    gap-flush env (settle f (record_ack f.seq c))
    ∙ gap-settle f (record_ack f.seq c)
    ∙ gap-record_ack f.seq c

gap-begin_replay :
    (head : Option ℕ) (c : Conversation) → (begin_replay head c).gap_timer ≡ c.gap_timer
unfolding begin_replay arm_replay_timer
gap-begin_replay head c = ground arith

gap-attach_store : (c : Conversation) → (attach_store c).gap_timer ≡ c.gap_timer
gap-attach_store c = ground arith

pub gap-set_state :
    (st : ConnectionState) (delay : Option ℕ) (k : Option TransportClose) (code : Option String)
    (c : Conversation)
    → (set_state st delay k code c).gap_timer ≡ c.gap_timer
unfolding set_state
gap-set_state st delay k code c = ground arith

gap-resolve_ready :
    (d : WelcomeData) (c : Conversation) → (resolve_ready d c).gap_timer ≡ c.gap_timer
gap-resolve_ready d c = ground arith

gap-adopt_welcome :
    (d : WelcomeData) (c : Conversation) → (adopt_welcome d c).gap_timer ≡ c.gap_timer
unfolding adopt_welcome
gap-adopt_welcome d c = refl

gap-on_welcome :
    (env : Env) (d : WelcomeData) (c : Conversation) → (on_welcome env d c).gap_timer ≡ c.gap_timer
unfolding on_welcome
gap-on_welcome env d c =
    let saved = schedule_refresh env (save_state (adopt_welcome d c)) in
    let attached = attach_store (begin_replay d.watermark saved) in
    gap-resolve_ready d (emit (Output.welcomed d) (set_state open_ none none none attached))
    ∙ gap-set_state open_ none none none attached
    ∙ gap-attach_store (begin_replay d.watermark saved)
    ∙ gap-begin_replay d.watermark saved
    ∙ gap-schedule_refresh env (save_state (adopt_welcome d c))
    ∙ gap-save_state (adopt_welcome d c)
    ∙ gap-adopt_welcome d c

gap-retry_send :
    (env : Env) (id : String) (f : ErrorFrame) (c : Conversation)
    → (retry_send env id f c).gap_timer ≡ c.gap_timer
unfolding retry_send schedule_retry
gap-retry_send env id f c = ground arith

gap-fail_send :
    (env : Env) (id code : String) (c : Conversation)
    → (fail_send env id code c).gap_timer ≡ c.gap_timer
unfolding fail_send flush
gap-fail_send env id code c = ground arith

gap-invalid_watermark :
    (env : Env) (f : ErrorFrame) (c : Conversation)
    → (invalid_watermark env f c).gap_timer ≡ c.gap_timer
unfolding invalid_watermark
gap-invalid_watermark env f c =
    let reset_c = record c { receive = reset c.receive } in
    let ended = end_replay env true (save_state reset_c) in
    ground (
      arith,
      gap-transport_send env (ClientFrame.sync 0) ended,
      gap-end_replay env true (save_state reset_c),
      gap-save_state reset_c,
    )

gap-session_error :
    (env : Env) (f : ErrorFrame) (c : Conversation)
    → (session_error env f c).gap_timer ≡ c.gap_timer
unfolding session_error replay_unavailable fetch_token
gap-session_error env f c = ground (arith, gap-invalid_watermark env f c, gap-end_replay env true c)

gap-on_error :
    (env : Env) (f : ErrorFrame) (c : Conversation) → (on_error env f c).gap_timer ≡ c.gap_timer
unfolding on_error
gap-on_error env f c = elim (Option-cases (failed_send f c)) [
  | inl e ↦ rw (e, on_error) (gap-session_error env f c)
  | inr (id, e) ↦
      rw (e, on_error) (ground (arith, gap-retry_send env id f c, gap-fail_send env id f.code c))
]

on_other-IsStuck :
    (env : Env) (f : OtherFrame) (c : Conversation) → IsStuck c → IsStuck (on_other env f c)
unfolding on_other
on_other-IsStuck env f c h = elim (Option-cases (is_persistent f)) [
  | inl e ↦ rw (e, on_other) (ground arith)
  | inr (a, e) ↦ rw (e, on_other) (on_persistent-IsStuck env a c h)
]

gap-replay_truncated :
    (env : Env) (watermark head : ℕ) (c : Conversation)
    → (replay_truncated env watermark head c).gap_timer ≡ c.gap_timer
unfolding replay_truncated transport_send arm_replay_timer
gap-replay_truncated env watermark head c = ground arith

pub on_frame-IsStuck :
    (env : Env) (f : ServerFrame) (c : Conversation) → IsStuck c → IsStuck (on_frame env f c)
unfolding on_frame
on_frame-IsStuck env (ServerFrame.welcome d) c h = ground (arith, gap-on_welcome env d c)
on_frame-IsStuck env (ServerFrame.ack f) c h = ground (arith, gap-on_ack env f c)
on_frame-IsStuck env (ServerFrame.error f) c h = ground (arith, gap-on_error env f c)
on_frame-IsStuck env (ServerFrame.delivery_status j) c h = h
on_frame-IsStuck env (ServerFrame.presence j) c h = h
on_frame-IsStuck env (ServerFrame.token_refreshed at) c h =
    ground (arith, gap-schedule_refresh env (record c { tokens = Token.set_expiry at c.tokens }))
on_frame-IsStuck env (ServerFrame.replay_truncated watermark head) c h =
    ground (arith, gap-replay_truncated env watermark head c)
on_frame-IsStuck env (ServerFrame.heartbeat none) c h = h
on_frame-IsStuck env (ServerFrame.heartbeat (some head)) c h =
    ground (arith, gap-check_gap head c h)
on_frame-IsStuck env (ServerFrame.other f) c h = on_other-IsStuck env f c h
