-- ===== src/Agent/Outbound/Queue.antt =====
-- agent.ts: the operations on the queue: `#enqueue`, the answers of the server, `#tick`, a new
-- connection and a lost one. Listeners run outside of these steps, and so do `#scheduleRefresh` and the
-- log.
pub mod Quiet
pub mod Rate
pub mod Settled
pub mod Resend
use converger.Prelude.{
  ℕ, zero, suc, ◌+◌, ◌-◌, max, Bool, true, false, not, ◌&&◌, ◌||◌, Option, none, some, String, List,
  [], ◌∷◌, ◌++◌, StrictEq, ◌==◌, string_eq, nat_eq, if◌then◌else◌, length, leb, ltb,
}
use converger.Js.Set
use converger.Js.Map
use converger.Js.Map.{Map}
use converger.Agent.Watermarks
use converger.Backoff.{Fraction, backoff_delay}
use converger.Agent.Outbound.{
  Frame, Outgoing, Agent, Output, resolved, rejected, emitted, retry_in, disconnected,
  start_settled, connect_in, put, key, pump, is_some,
}

abbrev pub transient : List String
transient = "typing" ∷ "run" ∷ "read" ∷ "sync" ∷ "error" ∷ "genui_components" ∷ "skills" ∷ []

abbrev pub resend_codes : List String
resend_codes = "rate_limited" ∷ "too_many_in_flight" ∷ "unavailable" ∷ "internal" ∷ []

abbrev pub unacked_types : List String
unacked_types =
    "tool_call" ∷ "skill" ∷ "genui" ∷ "interrupt" ∷ "interrupt_resolved" ∷ "run"
    ∷ "genui_components" ∷ "skills" ∷ "error" ∷ "typing" ∷ "read" ∷ "sync" ∷ []

abbrev pub max_send_attempts : ℕ
max_send_attempts = 6

-- The id of a message that needs an ack: its own, or the next of the counter.
unfoldable pub id_of : Frame → String → String
id_of frame next = elim frame.client_id [
  | some id ↦ id
  | none ↦ elim frame.id [ some id ↦ id | none ↦ next ]
]

-- The part of #enqueue that builds an entry and queues it; `client_ids` is #nextClientId's text for a
-- counter.
unfoldable pub queue_frame : ℕ → (ℕ → String) → String → Frame → Agent → Agent
unfolding id_of
queue_frame now client_ids conversation_id frame a =
    let next = client_ids (suc a.client_counter) in
    let acked = not (Set.has frame.kind unacked_types) in
    let named = is_some frame.client_id || is_some frame.id in
    let entry : Outgoing = record {
      conversation_id = conversation_id;
      frame = if acked && not named then record frame { client_id = some next } else frame;
      client_id = if acked then some (id_of frame next) else none;
      promise = a.promises;
      deadline = now + a.send_timeout_ms;
      sent_at = 0;
      attempts = 0;
    } in
    record a {
      promises = suc a.promises;
      queue = a.queue ++ entry ∷ [];
      tracker = Watermarks.touch conversation_id a.tracker;
      client_counter = if acked && not named then suc a.client_counter else a.client_counter;
    }

-- A promise that is settled at once.
unfoldable pub settle_now : Output → Agent → Agent
settle_now o a = put (o ∷ []) (record a { promises = suc a.promises })

-- #enqueue, for the promise of the next number.
unfoldable pub enqueue : (Outgoing → Bool) → ℕ → (ℕ → String) → String → Frame → Agent → Agent
enqueue accepts now client_ids conversation_id frame a =
    if not a.running
    then settle_now (rejected a.promises "closed") a
    else if Set.has frame.kind transient && not (frame.kind == "sync") && not a.connected
    then settle_now (resolved a.promises none) a
    else pump accepts now (queue_frame now client_ids conversation_id frame a)

-- An entry leaves the unacknowledged ones, with an output.
unfoldable pub answer : String → Output → Agent → Agent
answer k o a = put (o ∷ []) (record a { inflight = Map.delete k a.inflight })

-- The seq of an ack is recorded.
unfoldable pub track : String → Option ℕ → Agent → Agent
track conversation_id none a = a
track conversation_id (some n) a = record a {
  tracker = (Watermarks.record_seq conversation_id n a.tracker).0;
}

-- The `ack` case of #onEnveloped.
unfoldable pub on_ack : (Outgoing → Bool) → ℕ → String → String → Option ℕ → Agent → Agent
on_ack accepts now conversation_id client_id seq a0 =
    let a = track conversation_id seq a0 in
    let k = key conversation_id client_id in
    elim (Map.get k a.inflight) [
      | none ↦ a
      | some entry ↦ pump accepts now (answer k (resolved entry.promise (some client_id)) a)
    ]

-- What #onSendError reads of an AgentError.
pub record AgentError : Type 0 where
  pub code : String
  pub retryable : Bool
  pub retry_after_ms : Option ℕ
  pub conversation_id : Option String
  pub client_id : Option String

abbrev pub or_empty : Option String → String
or_empty none = ""
or_empty (some s) = s

abbrev or_delay : Option ℕ → ℕ → ℕ
or_delay none d = d
or_delay (some ms) d = ms

-- What #onSendError does with the entry: resend it later, or give it up.
unfoldable pub send_error_output : Fraction → AgentError → Outgoing → Agent → Output
send_error_output random error entry a =
    if error.retryable && (Set.has error.code resend_codes && ltb entry.attempts max_send_attempts)
    then retry_in
        (or_delay error.retry_after_ms (backoff_delay entry.attempts a.reconnect none random)) entry
    else rejected entry.promise error.code

-- #onSendError
unfoldable pub on_send_error : (Outgoing → Bool) → ℕ → Fraction → AgentError → Agent → Agent
on_send_error accepts now random error a =
    let k = key (or_empty error.conversation_id) (or_empty error.client_id) in
    elim (Map.get k a.inflight) [
      | none ↦ put (emitted error.code ∷ []) a
      | some entry ↦ pump accepts now (answer k (send_error_output random error entry a) a)
    ]

-- The callback of the delayed retry.
unfoldable pub retry_fired : (Outgoing → Bool) → ℕ → Outgoing → Agent → Agent
retry_fired accepts now entry a =
    if not a.running then a else pump accepts now (record a { queue = entry ∷ a.queue })

-- The first loop of #tick, from the last entry to the first: what stays, and the timeouts.
unfoldable pub expire_queue : ℕ → List Outgoing → List Outgoing × List Output
expire_queue now [] = ([], [])
expire_queue now (entry ∷ queue) =
    let (kept, outs) = expire_queue now queue in
    if ltb entry.deadline now
    then (kept, outs ++ rejected entry.promise "timeout" ∷ [])
    else (entry ∷ kept, outs)

-- A round of the second loop of #tick.
unfoldable pub tick_entry : ℕ → String → Outgoing → Agent → Agent
tick_entry now k entry a =
    if ltb entry.deadline now
    then put (rejected entry.promise "timeout" ∷ [])
        (record a { inflight = Map.delete k a.inflight })
    else if a.connected && ltb a.ack_timeout_ms (now - entry.sent_at)
    then record a { inflight = Map.delete k a.inflight; queue = entry ∷ a.queue }
    else a

-- The second loop of #tick, over the agent that it changes.
unfoldable pub tick_inflight : ℕ → Map String Outgoing → Agent → Agent
tick_inflight now [] a = a
tick_inflight now ((k, entry) ∷ m) a = tick_inflight now m (tick_entry now k entry a)

-- #tick
unfoldable pub tick : (Outgoing → Bool) → ℕ → Agent → Agent
unfolding put
tick accepts now a =
    let (kept, outs) = expire_queue now a.queue in
    pump accepts now (tick_inflight now a.inflight (put outs (record a { queue = kept })))

insert_sent : Outgoing → List Outgoing → List Outgoing
insert_sent e [] = e ∷ []
insert_sent e (f ∷ fs) =
    let rest = insert_sent e fs in if leb e.sent_at f.sent_at then e ∷ f ∷ fs else f ∷ rest

-- `[...inflight.values()].sort((a, b) => a.sentAt - b.sentAt)`, which is stable.
unfoldable pub by_sent_at : Map String Outgoing → List Outgoing
unfolding insert_sent
by_sent_at [] = []
by_sent_at ((_, e) ∷ m) = insert_sent e (by_sent_at m)

-- #onWelcome, before #pump.
unfoldable pub welcomed : Agent → Agent
welcomed a = put (if a.started then start_settled none ∷ [] else []) (record a {
  connected = true;
  attempt = 0;
  ever_connected = true;
  was_rejected = false;
  inflight = [];
  queue = by_sent_at a.inflight ++ a.queue;
})

-- #onWelcome
unfoldable pub on_welcome : (Outgoing → Bool) → ℕ → Agent → Agent
on_welcome accepts now a = pump accepts now (welcomed a)

-- A round of the loop of #onClose.
abbrev pub drop_entry : Bool → Outgoing → List Outgoing × List Output → List Outgoing × List Output
drop_entry true entry (kept, outs) = (kept, outs ++ resolved entry.promise none ∷ [])
drop_entry false entry (kept, outs) = (entry ∷ kept, outs)

-- The loop of #onClose, from the last entry to the first: transient frames are dropped.
unfoldable pub drop_transient : List Outgoing → List Outgoing × List Output
drop_transient [] = ([], [])
drop_transient (entry ∷ queue) =
    drop_entry (Set.has entry.frame.kind transient) entry (drop_transient queue)

-- The sends of a list are rejected with a code, in its order.
unfoldable pub reject_all : String → List Outgoing → List Output
reject_all code [] = []
reject_all code (entry ∷ entries) = rejected entry.promise code ∷ reject_all code entries

unfoldable pub values : Map String Outgoing → List Outgoing
values [] = []
values ((_, e) ∷ m) = e ∷ values m

-- The codes that end #onClose for good.
unfoldable pub is_fatal : ℕ → Agent → Bool
is_fatal code a =
    code == 4400
    || ((code == 4401 && not a.has_get_token)
        || ((code == 4401 && a.was_rejected)
            || ((code == 4403 || code == 1008) && not a.ever_connected)))

unfoldable pub close_code_error : ℕ → String
close_code_error code =
    if code == 4401
    then "unauthorized"
    else if code == 4400
    then "unsupported_protocol"
    else if code == 4403
    then "forbidden"
    else "connect_failed"

-- Whether `attempt >= maxAttempts`; no `max_attempts` is `Infinity`.
unfoldable pub gives_up : Agent → Bool
gives_up a = elim a.reconnect.max_attempts [ none ↦ false | some n ↦ leb n a.attempt ]

-- `this.#start?.reject(error)`
unfoldable pub reject_start : String → Agent → List Output
reject_start code a = if a.started then start_settled (some code) ∷ [] else []

-- #scheduleReconnect
unfoldable pub schedule_reconnect : ℕ → Option ℕ → Fraction → Agent → Agent
unfolding put gives_up reject_start
schedule_reconnect code retry_after_ms random a =
    if not a.running
    then a
    else if gives_up a
    then put (disconnected code none ∷ reject_start "connect_failed" a)
        (record a { running = false })
    else let delay = backoff_delay (max 1 a.attempt) a.reconnect retry_after_ms random in
      put (disconnected code (some delay) ∷ connect_in (code == 4401) delay ∷ []) a

-- The first part of #onClose.
unfoldable pub lose_socket : Agent → Agent
lose_socket a =
    let (kept, outs) = drop_transient a.queue in
    put outs (record a { connected = false; queue = kept })

-- The fatal branch of #onClose: the sends of the queue and those in flight are rejected.
unfoldable pub fail_pending : ℕ → Agent → Agent
fail_pending code a =
    let error = close_code_error code in
    put
      (disconnected code none ∷ (if a.ever_connected then emitted error ∷ [] else [])
        ++ reject_start error a
        ++ reject_all error (a.queue ++ values a.inflight))
      (record a { running = false; queue = []; inflight = [] })

-- #onClose
unfoldable pub on_close : ℕ → Option ℕ → Fraction → Agent → Agent
on_close code retry_after_ms random a0 =
    let a = lose_socket a0 in
    if not a.running
    then a
    else if is_fatal code a || not a.reconnect.enabled
    then fail_pending code a
    else schedule_reconnect code retry_after_ms random
        (if code == 4401 then record a { was_rejected = true } else a)

-- The end of `stop`, after the handlers returned and #drain.
unfoldable pub stop_end : Agent → Agent
unfolding put reject_all values reject_start
stop_end a =
    put (reject_all "closed" (a.queue ++ values a.inflight) ++ reject_start "closed" a) (record a {
      running = false;
      connected = false;
      pump_timer = none;
      queue = [];
      inflight = [];
    })
