-- ===== src/Agent/Outbound/Queue/Resend.antt =====
-- agent.ts: the delayed resend of a send that the server refused for now.
use converger.Prelude.{
  ℕ, ◌≡◌, ◌<◌, refl, ◌∙◌, Bool, true, false, none, some, String, [], ◌∷◌, ◌++◌, string_eq,
  if◌then◌else◌, arith, append_assoc, same_refl,
}
use converger.Js.Set
use converger.Js.Map
use converger.Backoff.{Fraction, backoff_delay}
use converger.Agent.Outbound.{
  Outgoing, Agent, Output, retry_in, start_settled, put, key, pump, pump_loop, refill,
}
use converger.Agent.Outbound.Queue.{
  AgentError, on_send_error, retry_fired, stop_end, answer, send_error_output, or_empty, or_delay,
  resend_codes, max_send_attempts, reject_all, reject_start, values,
}

resend_output :
    (random : Fraction) (error : AgentError) (entry : Outgoing) (a : Agent)
    → error.retryable ≡ true
    → Set.has error.code resend_codes ≡ true
    → entry.attempts < max_send_attempts
    → send_error_output random error entry a
      ≡ retry_in
          (or_delay error.retry_after_ms (backoff_delay entry.attempts a.reconnect none random))
          entry
unfolding send_error_output
resend_output random error entry a retryable code few = ground arith

-- With nothing queued, a pump changes the bucket and the timer alone.
pump_idle :
    (accepts : Outgoing → Bool) (now : ℕ) (a : Agent)
    → a.queue ≡ []
    → ((pump accepts now a).outputs ≡ a.outputs)
      × ((pump accepts now a).queue ≡ [])
      × ((pump accepts now a).inflight ≡ a.inflight)
      × ((pump accepts now a).started ≡ a.started)
unfolding pump pump_loop refill
pump_idle accepts now a h = ground arith

stop_end-outputs :
    (a : Agent)
    → a.queue ≡ []
    → a.inflight ≡ []
    → (stop_end a).outputs ≡ a.outputs ++ reject_start "closed" a
unfolding stop_end put reject_all values
stop_end-outputs a q i = ground arith

stop_end-running : (a : Agent) → (stop_end a).running ≡ false
unfolding stop_end put
stop_end-running a = refl

retry_stopped :
    (accepts : Outgoing → Bool) (now : ℕ) (entry : Outgoing) (a : Agent)
    → a.running ≡ false
    → retry_fired accepts now entry a ≡ a
unfolding retry_fired
retry_stopped accepts now entry a h = ground arith

answer_alone :
    (k : String) (o : Output) (entry : Outgoing) (a : Agent)
    → a.inflight ≡ (k, entry) ∷ []
    → ((answer k o a).inflight ≡ []) × ((answer k o a).outputs ≡ a.outputs ++ o ∷ [])
unfolding answer put Map.delete
answer_alone k o entry a h = ground (arith, same_refl k)

answer-queue : (k : String) (o : Output) (a : Agent) → (answer k o a).queue ≡ a.queue
unfolding answer put
answer-queue k o a = refl

answer-started : (k : String) (o : Output) (a : Agent) → (answer k o a).started ≡ a.started
unfolding answer put
answer-started k o a = refl

on_send_error-known :
    (accepts : Outgoing → Bool) (now : ℕ) (random : Fraction) (error : AgentError)
    (entry : Outgoing) (a : Agent)
    → let k = key (or_empty error.conversation_id) (or_empty error.client_id) in
      a.inflight ≡ (k, entry) ∷ []
      → on_send_error accepts now random error a
        ≡ pump accepts now (answer k (send_error_output random error entry a) a)
unfolding on_send_error Map.get
on_send_error-known accepts now random error entry a h =
    ground (arith, same_refl (key (or_empty error.conversation_id) (or_empty error.client_id)))

-- Where the queue is empty, and a send that is alone in flight is refused for now with attempts left, and the agent
-- stops before the delay ends, the outputs from the refusal to the end of the delay are the retry's timer and the
-- settlement of `start`: the send is not settled.
pub resend_lost :
    (accepts : Outgoing → Bool) (now later : ℕ) (random : Fraction) (error : AgentError)
    (entry : Outgoing) (a : Agent)
    → a.queue ≡ []
    → a.inflight ≡ (key (or_empty error.conversation_id) (or_empty error.client_id), entry) ∷ []
    → error.retryable ≡ true
    → Set.has error.code resend_codes ≡ true
    → entry.attempts < max_send_attempts
    → let delay =
        or_delay error.retry_after_ms (backoff_delay entry.attempts a.reconnect none random) in
      (retry_fired accepts later entry
        (stop_end (on_send_error accepts now random error a))).outputs
      ≡ a.outputs
        ++ retry_in delay entry ∷ (if a.started then start_settled (some "closed") ∷ [] else [])
unfolding reject_start
resend_lost accepts now later random error entry a q i retryable code few =
    let k = key (or_empty error.conversation_id) (or_empty error.client_id) in
    let b = answer k (send_error_output random error entry a) a in
    let c = pump accepts now b in
    let (empty, outs) = answer_alone k (send_error_output random error entry a) entry a i in
    let (outputs, queue, inflight, started) = pump_idle accepts now b (answer-queue k _ a ∙ q) in
    rw (on_send_error-known accepts now random error entry a i) (
      rw (retry_stopped accepts later entry (stop_end c) (stop_end-running c)) (
        ground (
          arith,
          stop_end-outputs c queue (inflight ∙ empty),
          started,
          answer-started k (send_error_output random error entry a) a,
          outputs,
          outs,
          resend_output random error entry a retryable code few,
          append_assoc a.outputs (send_error_output random error entry a ∷ [])
              (reject_start "closed" c),
        )))
