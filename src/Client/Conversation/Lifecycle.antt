-- ===== src/Client/Conversation/Lifecycle.antt =====
-- conversation.ts: connecting, reconnecting and closing.
use converger.Prelude.{
  ℕ, ◌+◌, Bool, true, false, not, ◌&&◌, ◌||◌, Option, none, some, String, List, [], ◌∷◌, ◌++◌, map,
  ◌==◌, string_eq, nat_eq, if◌then◌else◌, length, leb, ltb,
}
use converger.Js.Set
use converger.Backoff.{backoff_delay}
use converger.Client.CloseCode
use converger.Client.Outbox.Store
use converger.Client.Outbox.Store.{Stored}
use converger.Client.Outbox.Entries.{OutboxEntry}
use converger.Client.Frames.{JsNumber}
use converger.Client.Token.{rejected}
use converger.Client.Conversation.State.{
  Conversation, Env, Output, Ready, TransportKind, TransportClose, ConnectionState, emit, truthy,
  is_some, is_reconnecting, clear_timer, start_timer, set_state,
}
use converger.Client.Conversation.Inbound.{fetch_token, end_replay}

-- FATAL_CLOSE_CODES
abbrev pub fatal_close_codes : Set.Set ℕ
fatal_close_codes =
    CloseCode.unsupported_protocol ∷ CloseCode.forbidden ∷ CloseCode.conversation_not_found ∷ 4404
    ∷ []

-- MAX_AUTH_REJECTIONS
abbrev pub max_auth_rejections : ℕ
max_auth_rejections = 3

-- #clearTimers
unfoldable pub clear_timers : Conversation → Conversation
clear_timers c = record c {
  reconnect_timer = clear_timer c.reconnect_timer;
  refresh_timer = clear_timer c.refresh_timer;
  replay_timer = clear_timer c.replay_timer;
  gap_timer = clear_timer c.gap_timer;
  sync_timer = clear_timer c.sync_timer;
  retry_timer = clear_timer c.retry_timer;
}

-- #rejectWaiting
unfoldable pub reject_waiting : String → Conversation → Conversation
reject_waiting code c = record c {
  log = c.log ++ map (λ id. Output.reject_send id code) c.sending.waiting;
  sending = record c.sending { waiting = [] };
}

-- `#ready?.reject(error)`
abbrev pub reject_ready : String → Conversation → Conversation
reject_ready code c = elim c.ready [
  | Ready.pending ↦ emit (Output.reject_ready code) (record c { ready = Ready.settled })
  | _ ↦ c
]

-- `#transport = undefined; transport?.close(...)`
abbrev pub drop_transport : Conversation → Conversation
drop_transport c = elim c.transport [
  | none ↦ c
  | some t ↦ emit (Output.close_transport CloseCode.normal) (record c { transport = none })
]

-- #close
unfoldable pub close_session : String → TransportClose → Conversation → Conversation
close_session code close c =
    let c1 = drop_transport (clear_timers (record c { stopped = true; fatal = some code })) in
    let c2 = set_state ConnectionState.closed none (some close) (some code) c1 in
    emit Output.dispose (reject_ready code (reject_waiting code c2))

-- disconnect
unfoldable pub disconnect : Conversation → Conversation
disconnect c =
    let c1 = drop_transport (clear_timers (record c { stopped = true })) in
    let c2 = set_state ConnectionState.closed none none none c1 in
    emit Output.dispose (reject_ready "disconnected" (reject_waiting "disconnected" c2))

remove_all : List OutboxEntry → Store.Store → Store.Store
remove_all [] s = s
remove_all (e ∷ es) s = remove_all es (Store.remove e.client_id s).0

-- discardOutbox
unfoldable pub discard_outbox : Conversation → Conversation
unfolding remove_all
discard_outbox c = reject_waiting "discarded" (record c {
  sending = record c.sending { store = remove_all c.sending.store.entries c.sending.store };
})

-- `attempt > maxAttempts`
abbrev exhausted : ℕ → Option ℕ → Bool
exhausted attempt none = false
exhausted attempt (some limit) = ltb limit attempt

-- The fallback of #scheduleReconnect to the next transport.
unfoldable pub fall_back : Bool → Conversation → Conversation
fall_back opened c =
    if opened
    then c
    else if leb c.deps.fallback_after_attempts (c.failures_on_transport + 1)
        && ltb (c.transport_index + 1) (length c.deps.transports)
    then record c { failures_on_transport = 0; transport_index = c.transport_index + 1 }
    else record c { failures_on_transport = c.failures_on_transport + 1 }

-- #scheduleReconnect
unfoldable pub schedule_reconnect : Env → TransportClose → Conversation → Conversation
schedule_reconnect env close c =
    if not c.deps.reconnect.enabled
    then close_session "disconnected" close c
    else let c1 = record c { attempt = c.attempt + 1 } in
      if exhausted c1.attempt c.deps.reconnect.max_attempts
      then close_session "reconnect_failed" close c1
      else let c2 = fall_back close.opened c1 in
        let delay = backoff_delay c2.attempt c.deps.reconnect close.retry_after_ms env.random in
        let c3 = set_state ConnectionState.reconnecting (some delay) (some close) none c2 in
        record c3 { reconnect_timer = start_timer delay 0 }

-- The error code that a fatal close code stands for.
abbrev pub fatal_code : ℕ → String
fatal_code code =
    if code == CloseCode.unsupported_protocol
    then "unsupported_protocol"
    else if code == CloseCode.forbidden
    then "channel_inactive"
    else "conversation_not_found"

-- What #onClose does to the connection that is gone.
unfoldable pub drop_connection : Env → Conversation → Conversation
drop_connection env c =
    let c1 =
      end_replay env false
        (record c { transport = none; sending = record c.sending { in_flight = [] } }) in
    record c1 {
      refresh_timer = clear_timer c1.refresh_timer;
      gap_timer = clear_timer c1.gap_timer;
      sync_timer = clear_timer c1.sync_timer;
    }

-- The rejected token of #onClose.
unfoldable pub on_unauthorized : Env → TransportClose → Conversation → Conversation
on_unauthorized env close c =
    let c1 = record c { auth_rejections = c.auth_rejections + 1 } in
    if ltb max_auth_rejections c1.auth_rejections
    then close_session "unauthorized" close c1
    else schedule_reconnect env close (fetch_token rejected c1)

-- #onClose
unfoldable pub on_close : Env → TransportClose → Conversation → Conversation
on_close env close c =
    let c1 = drop_connection env c in
    if c1.stopped
    then c1
    else if Set.has close.code fatal_close_codes
    then close_session (fatal_code close.code) close c1
    else if close.code == CloseCode.unauthorized
    then on_unauthorized env close c1
    else schedule_reconnect env close c1

-- #connect, up to the answers of the factory and the token provider.
unfoldable pub connect_begin : Conversation → Conversation
connect_begin c =
    if c.stopped
    then c
    else let c1 = record c { connect_token = c.connect_token + 1 } in
      if is_reconnecting c.state
      then c1
      else set_state
          (if c.welcomed then ConnectionState.reconnecting else ConnectionState.connecting) none
          none none c1

-- `token !== #connectToken || #stopped`: another attempt has begun, or none is wanted.
abbrev is_stale : ℕ → Conversation → Bool
is_stale token c = not (token == c.connect_token) || c.stopped

abbrev is_refused : String → Bool
is_refused code = code == "unauthorized" || code == "forbidden" || code == "not_found"

-- #connect, where the factory, REST or the token provider failed with a code.
unfoldable pub connect_failed : Env → ℕ → String → Conversation → Conversation
connect_failed env token code c =
    if is_stale token c
    then c
    else let c1 = emit (Output.error code) c in
      if is_refused code
      then close_session code
          (record { code = CloseCode.unauthorized; opened = false; retry_after_ms = none }) c1
      else schedule_reconnect env (record { code = 1006; opened = false; retry_after_ms = none }) c1

-- #connect, with the transport and the token at hand.
unfoldable pub connect_ready : ℕ → TransportKind → Conversation → Conversation
connect_ready token kind c =
    if is_stale token c
    then c
    else emit
        (Output.connect_transport (record {
          conversation_id = truthy c.conversation_id;
          user_id = truthy c.user_id;
          watermark = elim (truthy c.conversation_id) [
            | none ↦ none
            | some _ ↦ some c.receive.watermark
          ];
        }))
        (record c { transport = some (record { attempt = token; kind = kind }) })

-- #open
abbrev pub open_session : Conversation → Conversation
open_session c = connect_begin (record c { ready = Ready.pending })

-- start; the error is thrown.
unfoldable pub start : Conversation → Conversation × Option String
start c =
    if c.started
    then (c, some "already_started")
    else (open_session (record c { started = true; conversation_id = none }), none)

-- resume, up to its `await`.
unfoldable pub resume_begin : Conversation → Conversation × Option String
resume_begin c =
    if c.started
    then (c, some "already_started")
    else if not (is_some (truthy c.conversation_id))
    then (c, some "no_conversation")
    else (record c { started = true }, none)

abbrev pub option_is : Option String → String → Bool
option_is none b = false
option_is (some a) b = a == b

-- The watermark that `resume` starts from: the argument, or the stored one of this conversation.
abbrev pub resume_watermark : Option JsNumber → Conversation → Option ℕ
resume_watermark (some (JsNumber.nat n)) c = some n
resume_watermark (some _) c = none
resume_watermark none c = elim c.sending.store.state [
  | none ↦ some c.receive.watermark
  | some st ↦
      if option_is c.conversation_id st.conversation_id
      then some st.watermark
      else some c.receive.watermark
]

-- The state that `load` leaves for `resume`.
abbrev pub resume_loaded : Stored → Conversation → Conversation
resume_loaded stored c =
    let c1 = record c {
      sending = record c.sending { store = (Store.load stored c.sending.store).0 };
    } in
    record c1 {
      user_id = elim c1.sending.store.state [
        | none ↦ c1.user_id
        | some st ↦ elim (truthy st.user_id) [ none ↦ c1.user_id | some id ↦ some id ]
      ];
    }

-- The end of resume, at the watermark that was settled on.
unfoldable pub resume_from : Option ℕ → Conversation → Conversation × Option String
resume_from none c = (c, some "invalid_watermark")
resume_from (some n) c =
    (open_session (record c { receive = record c.receive { watermark = n } }), none)

-- resume, from its `await` on, with what the storage gave.
unfoldable pub resume_end : Stored → Option JsNumber → Conversation → Conversation × Option String
unfolding resume_from
resume_end stored watermark c =
    let c1 = resume_loaded stored c in resume_from (resume_watermark watermark c1) c1
