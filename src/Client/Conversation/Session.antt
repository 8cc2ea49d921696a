-- ===== src/Client/Conversation/Session.antt =====
-- conversation.ts: the remaining operations of a session, and a session as a sequence of steps. Each
-- step is what runs between two awaits; a timer's callback runs only while its handle is live.
use converger.Prelude.{
  ℕ, ◌*◌, Bool, true, false, ◌&&◌, Option, none, some, String, List, [], ◌∷◌, ◌==◌, string_eq,
  nat_eq, if◌then◌else◌, leb,
}
use converger.Client.Frames.{JsNumber, ClientFrame, ClientMessage, ServerFrame}
use converger.Client.Outbox.Store.{Stored}
use converger.Client.Token
use converger.Client.Token.{ActiveToken, refresh}
use converger.Client.Conversation.State.{
  Conversation, Env, Output, Timer, Transport, TransportKind, TransportClose, emit, is_open,
  start_timer, clear_timer, transport_send,
}
use converger.Client.Conversation.Outbound.{retry_fired, send}
use converger.Client.Conversation.Inbound.{schedule_refresh, fetch_token, end_replay, gap_fired}
use converger.Client.Conversation.Handlers.{on_frame, on_attached, sync_fired}
use converger.Client.Conversation.Lifecycle.{
  on_close, connect_begin, connect_failed, connect_ready, disconnect, discard_outbox, start,
  resume_begin, resume_end,
}

abbrev has_signals : Option Transport → Bool
has_signals none = false
has_signals (some t) = t.kind.signals

abbrev has_auth : Option Transport → Bool
has_auth none = false
has_auth (some t) = t.kind.auth

-- `state === "open" && transport?.capabilities.signals`
abbrev can_signal : Conversation → Bool
can_signal c = is_open c.state && has_signals c.transport

-- typing; beside the session, what is returned.
unfoldable pub typing : Env → Bool → Conversation → Conversation × Bool
typing env is_typing c =
    if can_signal c
    then (
      transport_send env (ClientFrame.typing is_typing) c,
      env.accepts (ClientFrame.typing is_typing),
    )
    else (c, false)

-- markRead, at the given seq or at the watermark.
unfoldable pub mark_read : Env → Option ℕ → Conversation → Conversation × Bool
mark_read env seq c =
    let n : ℕ = elim seq [ none ↦ c.receive.watermark | some k ↦ k ] in
    if leb 1 n && can_signal c
    then (transport_send env (ClientFrame.read n) c, env.accepts (ClientFrame.read n))
    else (c, false)

-- `transport?.capabilities.auth && state === "open"`
abbrev can_auth : Conversation → Bool
can_auth c = has_auth c.transport && is_open c.state

-- #refresh, on the token that the provider gave.
unfoldable pub refresh_done : Env → ActiveToken → Conversation → Conversation
refresh_done env token c =
    let c1 = record c { tokens = Token.fetch_end (some token) c.tokens } in
    if can_auth c1
    then transport_send env (ClientFrame.auth token.token) c1
    else schedule_refresh env c1

-- #refresh, where the provider failed; the timer's delay is doubled.
unfoldable pub refresh_failed : String → Conversation → Conversation
refresh_failed code c =
    record (emit (Output.error code) (record c { tokens = Token.fetch_end none c.tokens })) {
      refresh_timer = start_timer (2 * 10000) 0;
    }

-- The callback of a timer, where it is still to run.
unfoldable pub fire : Option Timer → (ℕ → Conversation → Conversation) → Conversation → Conversation
fire none callback c = c
fire (some t) callback c = if t.live then callback t.argument c else c

-- The transport that a callback belongs to is the one in use.
abbrev pub is_current : ℕ → Option Transport → Bool
is_current attempt none = false
is_current attempt (some t) = t.attempt == attempt

-- What happens to a session. The frame and close callbacks name the transport's attempt.
pub data Event : Type 0 where
  frame : ℕ → ServerFrame → Event
  close : ℕ → TransportClose → Event
  attached : Option Stored → Event
  connect : Event
  failed : ℕ → String → Event
  ready : ℕ → TransportKind → Event
  reconnect_timer refresh_timer replay_timer gap_timer sync_timer retry_timer : Event
  refreshed : ActiveToken → Event
  refresh_error : String → Event
  fetched : Option ActiveToken → Event
  send_message : ClientMessage → Event
  set_typing : Bool → Event
  read_up_to : Option ℕ → Event
  begin : Event
  resume : Event
  resume_loaded : Stored → Option JsNumber → Event
  discard : Event
  stop : Event

unfoldable pub step : Env → Event → Conversation → Conversation
step env (frame attempt f) c = if is_current attempt c.transport then on_frame env f c else c
step env (close attempt k) c = if is_current attempt c.transport then on_close env k c else c
step env (attached stored) c = on_attached env stored c
step env connect c = connect_begin c
step env (failed token code) c = connect_failed env token code c
step env (ready token kind) c = connect_ready token kind c
step env reconnect_timer c =
    fire c.reconnect_timer
      (λ _ d. connect_begin (record d { reconnect_timer = clear_timer d.reconnect_timer })) c
step env refresh_timer c =
    fire c.refresh_timer
      (λ _ d. fetch_token refresh (record d { refresh_timer = clear_timer d.refresh_timer })) c
step env replay_timer c = fire c.replay_timer (λ _ d. end_replay env true d) c
step env gap_timer c = fire c.gap_timer (λ highest d. gap_fired env highest d) c
step env sync_timer c = fire c.sync_timer (λ from d. sync_fired env from d) c
step env retry_timer c = fire c.retry_timer (λ _ d. retry_fired env d) c
step env (refreshed token) c = refresh_done env token c
step env (refresh_error code) c = refresh_failed code c
step env (fetched token) c = record c { tokens = Token.fetch_end token c.tokens }
step env (send_message m) c = (send env m c).0
step env (set_typing on) c = (typing env on c).0
step env (read_up_to seq) c = (mark_read env seq c).0
step env begin c = (start c).0
step env resume c = (resume_begin c).0
step env (resume_loaded stored watermark) c = (resume_end stored watermark c).0
step env discard c = discard_outbox c
step env stop c = disconnect c

-- Steps one after the other, each with what it reads outside.
unfoldable pub run : List (Env × Event) → Conversation → Conversation
run [] c = c
run ((env, e) ∷ es) c = run es (step env e c)
