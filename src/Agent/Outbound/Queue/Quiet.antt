-- ===== src/Agent/Outbound/Queue/Quiet.antt =====
-- agent.ts: what the operations do with the tokens and the writes before `#pump`.
use converger.Prelude.{
  ℕ, suc, max, ◌≡◌, refl, Bool, true, false, Option, none, some, String, List, [], ◌∷◌, ◌++◌, ◌==◌,
  string_eq, nat_eq, if◌then◌else◌, arith, append-nil,
}
use converger.Js.Map
use converger.Js.Map.{Map}
use converger.Backoff.{Fraction, backoff_delay}
use converger.Agent.Outbound.{
  Frame, Outgoing, Agent, Output, resolved, rejected, emitted, put, disconnected, start_settled,
  connect_in,
}
use converger.Agent.Outbound.Pump.{written_of, written_of-append}
use converger.Agent.Outbound.Queue.{
  expire_queue, tick_inflight, tick_entry, drop_transient, drop_entry, reject_all, on_close,
  schedule_reconnect, stop_end, reject_start, lose_socket, fail_pending, values, close_code_error,
  settle_now, queue_frame, answer, track, AgentError, send_error_output, welcomed, by_sent_at,
}

-- Nothing is written and the bucket is left alone.
pub record IsQuiet (a b : Agent) : Type 0 where
  pub writes : written_of b.outputs ≡ written_of a.outputs
  pub tokens : b.millitokens ≡ a.millitokens
  pub since : b.tokens_at ≡ a.tokens_at
  pub rate : b.fps ≡ a.fps

pub IsQuiet-trans : {a b c : Agent} → IsQuiet a b → IsQuiet b c → IsQuiet a c
IsQuiet-trans p q = ground arith

pub put-IsQuiet :
    (os : List Output) {a : Agent} (b : Agent)
    → IsQuiet a b
    → written_of os ≡ []
    → IsQuiet a (put os b)
unfolding put
put-IsQuiet os b q h =
    ground (arith, written_of-append b.outputs os, append-nil (written_of b.outputs))

written_of-expire_queue :
    (now : ℕ) (queue : List Outgoing) → written_of (expire_queue now queue).1 ≡ []
unfolding expire_queue
written_of-expire_queue now [] = refl
written_of-expire_queue now (e ∷ queue) = ground (
  arith,
  written_of-expire_queue now queue,
  written_of-append (expire_queue now queue).1 (rejected e.promise "timeout" ∷ []),
)

written_of-drop_entry :
    (b : Bool) (e : Outgoing) (rest : List Outgoing × List Output)
    → written_of rest.1 ≡ []
    → written_of (drop_entry b e rest).1 ≡ []
written_of-drop_entry true e rest h =
    ground (arith, written_of-append rest.1 (resolved e.promise none ∷ []))
written_of-drop_entry false e rest h = h

written_of-drop_transient : (queue : List Outgoing) → written_of (drop_transient queue).1 ≡ []
unfolding drop_transient
written_of-drop_transient [] = refl
written_of-drop_transient (e ∷ queue) =
    written_of-drop_entry _ e (drop_transient queue) (written_of-drop_transient queue)

written_of-reject_all : (code : String) (es : List Outgoing) → written_of (reject_all code es) ≡ []
unfolding reject_all
written_of-reject_all code [] = refl
written_of-reject_all code (e ∷ es) = written_of-reject_all code es

pub expire-IsQuiet :
    (now : ℕ) (a : Agent)
    → IsQuiet a
        (put (expire_queue now a.queue).1 (record a { queue = (expire_queue now a.queue).0 }))
expire-IsQuiet now a = ground (
  arith,
  put-IsQuiet (expire_queue now a.queue).1 {a = a}
      (record a { queue = (expire_queue now a.queue).0 }) (ground arith),
  written_of-expire_queue now a.queue,
)

tick_entry-IsQuiet :
    (now : ℕ) (k : String) (e : Outgoing) (a : Agent) → IsQuiet a (tick_entry now k e a)
unfolding tick_entry
tick_entry-IsQuiet now k e a = ground (
  arith,
  put-IsQuiet (rejected e.promise "timeout" ∷ []) {a = a}
      (record a { inflight = Map.delete k a.inflight }) (ground arith) refl,
)

pub tick_inflight-IsQuiet :
    (now : ℕ) (m : Map String Outgoing) (a : Agent) → IsQuiet a (tick_inflight now m a)
unfolding tick_inflight
tick_inflight-IsQuiet now [] a = ground arith
tick_inflight-IsQuiet now ((k, e) ∷ m) a =
    IsQuiet-trans (tick_entry-IsQuiet now k e a)
      (tick_inflight-IsQuiet now m (tick_entry now k e a))

written_of-reject_start : (code : String) (a : Agent) → written_of (reject_start code a) ≡ []
unfolding reject_start
written_of-reject_start code a = ground arith

schedule_reconnect-IsQuiet :
    (code : ℕ) (retry_after_ms : Option ℕ) (random : Fraction) (a : Agent)
    → IsQuiet a (schedule_reconnect code retry_after_ms random a)
unfolding schedule_reconnect
schedule_reconnect-IsQuiet code retry_after_ms random a =
    let delay = backoff_delay (max 1 a.attempt) a.reconnect retry_after_ms random in
    let gone : IsQuiet a (
        put (disconnected code none ∷ reject_start "connect_failed" a)
          (record a { running = false })) =
      put-IsQuiet _ (record a { running = false }) (ground arith)
        (written_of-reject_start "connect_failed" a) in
    let again : IsQuiet a
        (put (disconnected code (some delay) ∷ connect_in (code == 4401) delay ∷ []) a) =
      put-IsQuiet _ a (ground arith) refl in
    ground (arith, gone, again)

lose_socket-IsQuiet : (a : Agent) → IsQuiet a (lose_socket a)
unfolding lose_socket
lose_socket-IsQuiet a =
    put-IsQuiet _ (record a { connected = false; queue = (drop_transient a.queue).0 })
      (ground arith) (written_of-drop_transient a.queue)

written_of-emitted :
    (b : Bool) (code : String) → written_of (if b then emitted code ∷ [] else []) ≡ []
written_of-emitted true code = refl
written_of-emitted false code = refl

-- Outputs without writes, one after the other.
written_of-append_nil :
    (os ps : List Output) → written_of os ≡ [] → written_of ps ≡ [] → written_of (os ++ ps) ≡ []
written_of-append_nil os ps h k = ground (arith, written_of-append os ps)

fail_pending-IsQuiet : (code : ℕ) (a : Agent) → IsQuiet a (fail_pending code a)
unfolding fail_pending
fail_pending-IsQuiet code a =
    let error = close_code_error code in
    let errors = if a.ever_connected then emitted error ∷ [] else [] in
    let start = reject_start error a in
    let rest = reject_all error (a.queue ++ values a.inflight) in
    put-IsQuiet _ (record a { running = false; queue = []; inflight = [] }) (ground arith)
      (written_of-append_nil (errors ++ start) rest
        (written_of-append_nil errors start (written_of-emitted a.ever_connected error)
          (written_of-reject_start error a))
        (written_of-reject_all error (a.queue ++ values a.inflight)))

pub on_close-IsQuiet :
    (code : ℕ) (retry_after_ms : Option ℕ) (random : Fraction) (a : Agent)
    → IsQuiet a (on_close code retry_after_ms random a)
unfolding on_close
on_close-IsQuiet code retry_after_ms random a =
    let b = lose_socket a in
    ground (
      arith,
      lose_socket-IsQuiet a,
      fail_pending-IsQuiet code b,
      schedule_reconnect-IsQuiet code retry_after_ms random b,
      schedule_reconnect-IsQuiet code retry_after_ms random (record b { was_rejected = true }),
    )

pub stop_end-IsQuiet : (a : Agent) → IsQuiet a (stop_end a)
unfolding stop_end
stop_end-IsQuiet a =
    put-IsQuiet _
      (record a {
        running = false;
        connected = false;
        pump_timer = none;
        queue = [];
        inflight = [];
      })
      (ground arith)
      (written_of-append_nil (reject_all "closed" (a.queue ++ values a.inflight))
        (reject_start "closed" a) (written_of-reject_all "closed" (a.queue ++ values a.inflight))
        (written_of-reject_start "closed" a))

pub settle_now-IsQuiet :
    (o : Output) (a : Agent) → written_of (o ∷ []) ≡ [] → IsQuiet a (settle_now o a)
unfolding settle_now
settle_now-IsQuiet o a h =
    put-IsQuiet (o ∷ []) (record a { promises = suc a.promises }) (ground arith) h

pub queue_frame-IsQuiet :
    (now : ℕ) (client_ids : ℕ → String) (conversation_id : String) (frame : Frame) (a : Agent)
    → IsQuiet a (queue_frame now client_ids conversation_id frame a)
unfolding queue_frame
queue_frame-IsQuiet now client_ids conversation_id frame a = ground arith

pub answer-IsQuiet :
    (k : String) (o : Output) (a : Agent) → written_of (o ∷ []) ≡ [] → IsQuiet a (answer k o a)
unfolding answer
answer-IsQuiet k o a h =
    put-IsQuiet (o ∷ []) (record a { inflight = Map.delete k a.inflight }) (ground arith) h

pub track-IsQuiet :
    (conversation_id : String) (seq : Option ℕ) (a : Agent)
    → IsQuiet a (track conversation_id seq a)
unfolding track
track-IsQuiet conversation_id none a = ground arith
track-IsQuiet conversation_id (some n) a = ground arith

pub written_of-send_error_output :
    (random : Fraction) (error : AgentError) (entry : Outgoing) (a : Agent)
    → written_of (send_error_output random error entry a ∷ []) ≡ []
unfolding send_error_output
written_of-send_error_output random error entry a = ground arith

written_of-start_settled : (b : Bool) → written_of (if b then start_settled none ∷ [] else []) ≡ []
written_of-start_settled true = refl
written_of-start_settled false = refl

pub welcomed-IsQuiet : (a : Agent) → IsQuiet a (welcomed a)
unfolding welcomed
welcomed-IsQuiet a =
    put-IsQuiet _
      (record a {
        connected = true;
        attempt = 0;
        ever_connected = true;
        was_rejected = false;
        inflight = [];
        queue = by_sent_at a.inflight ++ a.queue;
      })
      (ground arith) (written_of-start_settled a.started)
