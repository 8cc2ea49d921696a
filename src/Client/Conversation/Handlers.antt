-- ===== src/Client/Conversation/Handlers.antt =====
-- conversation.ts: `#onWelcome`, `#onError` and the dispatch of `#onFrame`.
use converger.Prelude.{
  ℕ, ◌+◌, min, Bool, true, false, not, ◌&&◌, ◌||◌, Option, none, some, String, ◌==◌, string_eq,
  nat_eq, if◌then◌else◌, ltb,
}
use converger.Js.Set
use converger.Js.Map
use converger.Backoff.{or_default}
use converger.Client.Frames.{
  ClientFrame, WelcomeData, ErrorFrame, OtherFrame, ServerFrame, is_persistent,
  retryable_send_errors,
}
use converger.Client.Outbox.Store
use converger.Client.Outbox.Store.{Stored}
use converger.Client.Receive.Watermark.{reset}
use converger.Client.Token
use converger.Client.Token.{refresh}
use converger.Client.Conversation.State.{
  Conversation, Env, Output, Ready, emit, truthy, is_some, is_open, start_timer, transport_send,
  save_state, set_state, open_,
}
use converger.Client.Conversation.Outbound.{flush, schedule_retry}
use converger.Client.Conversation.Inbound.{
  schedule_refresh, fetch_token, arm_replay_timer, end_replay, check_gap, on_persistent, on_ack,
}

-- The first test of #onWelcome: the server replaced the conversation.
abbrev pub is_replaced : Option String → String → Bool
is_replaced asserted announced = elim (truthy asserted) [
  | none ↦ false
  | some id ↦ not (announced == "") && not (announced == id)
]

-- The fields that #onWelcome sets before it saves the state.
unfoldable pub adopt_welcome : WelcomeData → Conversation → Conversation
adopt_welcome d c = record c {
  receive = if is_replaced c.conversation_id d.conversation_id then reset c.receive else c.receive;
  conversation_id = if d.conversation_id == "" then c.conversation_id else some d.conversation_id;
  user_id = elim (truthy d.user_id) [ none ↦ c.user_id | some id ↦ some id ];
  sending = record c.sending {
    max_in_flight = elim d.max_in_flight [
      | none ↦ c.sending.max_in_flight
      | some n ↦ if ltb 0 n then n else c.sending.max_in_flight
    ];
  };
  tokens = Token.set_expiry d.expires_at c.tokens;
  last_welcome = some d;
  welcomed = true;
  attempt = 0;
  failures_on_transport = 0;
  auth_rejections = 0;
}

-- The replay that #onWelcome waits for, where the server's head is above the watermark.
unfoldable pub begin_replay : Option ℕ → Conversation → Conversation
begin_replay head c = elim head [
  | none ↦ record c { replaying = false }
  | some n ↦
      if ltb c.receive.watermark n
      then arm_replay_timer (record c { replaying = true; replay_target = n })
      else record c { replaying = false }
]

-- `#ready?.resolve(data)`
abbrev pub resolve_ready : WelcomeData → Conversation → Conversation
resolve_ready d c = elim c.ready [
  | Ready.pending ↦ emit (Output.resolve_ready d) (record c { ready = Ready.settled })
  | _ ↦ c
]

-- `store.attach(id)` up to its await, where there is an id.
abbrev pub attach_store : Conversation → Conversation
attach_store c = elim (truthy c.conversation_id) [
  | none ↦ c
  | some id ↦ record c {
    sending = record c.sending { store = (Store.attach_begin id c.sending.store).0 };
  }
]

-- #onWelcome, up to the continuation of `attach`.
unfoldable pub on_welcome : Env → WelcomeData → Conversation → Conversation
on_welcome env d c =
    let saved = schedule_refresh env (save_state (adopt_welcome d c)) in
    let attached = attach_store (begin_replay d.watermark saved) in
    resolve_ready d (emit (Output.welcomed d) (set_state open_ none none none attached))

-- The continuation of `attach`: what the storage gave, where it was read.
unfoldable pub on_attached : Env → Option Stored → Conversation → Conversation
on_attached env stored c =
    let c' : Conversation = elim stored [
      | none ↦ c
      | some st ↦ record c {
        sending = record c.sending { store = (Store.attach_end st c.sending.store).0 };
      }
    ] in
    flush env (save_state c')

-- The test of #onError: a send is tried again.
abbrev pub is_retried : ErrorFrame → Bool
is_retried f =
    Set.has f.code retryable_send_errors || (f.retryable && not (f.code == "token_expired"))

-- The retry of a send that a retryable error names.
unfoldable pub retry_send : Env → String → ErrorFrame → Conversation → Conversation
retry_send env id f c = schedule_retry env (record c {
  sending = record c.sending {
    in_flight = Set.delete id c.sending.in_flight;
    retry_at = Map.set id (env.now + or_default f.retry_after_ms 1000) c.sending.retry_at;
  };
})

-- The end of a send that any other error names.
unfoldable pub fail_send : Env → String → String → Conversation → Conversation
fail_send env id code c =
    let c' = record c {
      sending = record c.sending {
        in_flight = Set.delete id c.sending.in_flight;
        retry_at = Map.delete id c.sending.retry_at;
        store = (Store.remove id c.sending.store).0;
        waiting = Set.delete id c.sending.waiting;
      };
    } in
    let rejected =
      if Set.has id c.sending.waiting then emit (Output.reject_send id code) c' else c' in
    flush env (emit (Output.send_failed id code) rejected)

-- `replay_unavailable`
unfoldable pub replay_unavailable : Env → ErrorFrame → Conversation → Conversation
replay_unavailable env f c =
    let c' = end_replay env true c in
    record c' {
      sync_timer =
          start_timer (or_default f.retry_after_ms 1000)
            (or_default f.details_watermark c'.receive.watermark);
    }

-- The callback of the sync timer, which captured `from`.
unfoldable pub sync_fired : Env → ℕ → Conversation → Conversation
sync_fired env from c =
    let c' = record c { sync_timer = none } in
    if is_open c.state
    then transport_send env (ClientFrame.sync (min from c.receive.watermark)) c'
    else c'

abbrev pub is_session_frame : Option String → Bool
is_session_frame none = true
is_session_frame (some t) = t == "hello" || t == "sync"

-- `invalid_watermark`
unfoldable pub invalid_watermark : Env → ErrorFrame → Conversation → Conversation
invalid_watermark env f c =
    if is_session_frame f.frame_type
    then transport_send env (ClientFrame.sync 0)
        (end_replay env true (save_state (record c { receive = reset c.receive })))
    else c

-- The `switch` of #onError, for an error that names no pending send.
unfoldable pub session_error : Env → ErrorFrame → Conversation → Conversation
session_error env f c = emit (Output.error f.code) (
    if f.code == "replay_unavailable"
    then replay_unavailable env f c
    else if f.code == "invalid_watermark"
    then invalid_watermark env f c
    else if f.code == "token_expired"
    then fetch_token refresh c
    else c)

-- `clientId && entry`
abbrev pub failed_send : ErrorFrame → Conversation → Option String
failed_send f c = elim (truthy f.client_id) [
  | none ↦ none
  | some id ↦ if is_some (Store.get id c.sending.store) then some id else none
]

-- #onError
unfoldable pub on_error : Env → ErrorFrame → Conversation → Conversation
on_error env f c = elim (failed_send f c) [
  | none ↦ session_error env f c
  | some id ↦ if is_retried f then retry_send env id f c else fail_send env id f.code c
]

-- The default branch of #onFrame.
unfoldable pub on_other : Env → OtherFrame → Conversation → Conversation
on_other env f c = elim (is_persistent f) [
  | some a ↦ on_persistent env a c
  | none ↦ if f.frame_type == "typing" then emit (Output.transient_typing f) c else c
]

-- `replayTruncated`
unfoldable pub replay_truncated : Env → ℕ → ℕ → Conversation → Conversation
replay_truncated env watermark head_seq c =
    let c' = arm_replay_timer (record (emit (Output.replay_truncated watermark head_seq) c) {
      replaying = true;
      replay_target = head_seq;
    }) in
    transport_send env (ClientFrame.sync (min c.receive.watermark watermark)) c'

-- #onFrame
unfoldable pub on_frame : Env → ServerFrame → Conversation → Conversation
on_frame env (ServerFrame.welcome d) c = on_welcome env d c
on_frame env (ServerFrame.ack f) c = on_ack env f c
on_frame env (ServerFrame.error f) c = on_error env f c
on_frame env (ServerFrame.delivery_status j) c = emit (Output.delivery_status j) c
on_frame env (ServerFrame.presence j) c = emit (Output.presence j) c
on_frame env (ServerFrame.token_refreshed at) c =
    schedule_refresh env (record c { tokens = Token.set_expiry at c.tokens })
on_frame env (ServerFrame.replay_truncated watermark head_seq) c =
    replay_truncated env watermark head_seq c
on_frame env (ServerFrame.heartbeat none) c = c
on_frame env (ServerFrame.heartbeat (some head)) c =
    if ltb c.receive.watermark head then check_gap head c else c
on_frame env (ServerFrame.other f) c = on_other env f c
