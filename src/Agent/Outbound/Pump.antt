-- ===== src/Agent/Outbound/Pump.antt =====
-- agent.ts: `#pump`, the order of the queue, the unacknowledged sends and the tokens.
use converger.Prelude.{
  ℕ, ◌+◌, ◌-◌, ◌*◌, ◌≤◌, ◌≡◌, refl, Bool, List, [], ◌∷◌, ◌++◌, string_eq, length, arith,
  append_assoc, Option-cases, inl, inr, length-append,
}
use converger.Js.Map
use converger.Agent.Outbound.{
  Outgoing, Agent, Output, written, resolved, rejected, emitted, retry_in, disconnected,
  start_settled, connect_in, put, key, acked_id, refill, sent, round_of, taken, pump_loop, pump,
}

-- The entries that were written, in order.
abbrev pub written_of : List Output → List Outgoing
written_of [] = []
written_of (written o ∷ os) = o ∷ written_of os
written_of (resolved _ _ ∷ os) = written_of os
written_of (rejected _ _ ∷ os) = written_of os
written_of (emitted _ ∷ os) = written_of os
written_of (retry_in _ _ ∷ os) = written_of os
written_of (disconnected _ _ ∷ os) = written_of os
written_of (start_settled _ ∷ os) = written_of os
written_of (connect_in _ _ ∷ os) = written_of os

pub written_of-append :
    (os ps : List Output) → written_of (os ++ ps) ≡ written_of os ++ written_of ps
written_of-append [] ps = refl
written_of-append (written o ∷ os) ps = ground (written_of-append os ps, arith)
written_of-append (resolved _ _ ∷ os) ps = written_of-append os ps
written_of-append (rejected _ _ ∷ os) ps = written_of-append os ps
written_of-append (emitted _ ∷ os) ps = written_of-append os ps
written_of-append (retry_in _ _ ∷ os) ps = written_of-append os ps
written_of-append (disconnected _ _ ∷ os) ps = written_of-append os ps
written_of-append (start_settled _ ∷ os) ps = written_of-append os ps
written_of-append (connect_in _ _ ∷ os) ps = written_of-append os ps

-- The number of writes, in thousandths of a token.
abbrev pub spent : Agent → ℕ
spent a = 1000 * length (written_of a.outputs)

written_of-sent :
    (now : ℕ) (head : Outgoing) (rest : List Outgoing) (a : Agent)
    → written_of (sent now head rest a).outputs ≡ written_of a.outputs ++ head ∷ []
unfolding sent put
written_of-sent now head rest a = elim (Option-cases (acked_id head.client_id)) [
  | inl unacked ↦ rw (unacked, written_of) (written_of-append a.outputs _)
  | inr (id, acked) ↦ rw (acked, written_of) (written_of-append a.outputs _)
]

length-sent :
    (now : ℕ) (head : Outgoing) (rest : List Outgoing) (a : Agent)
    → length (written_of (sent now head rest a).outputs) ≡ length (written_of a.outputs) + 1
length-sent now head rest a =
    rw (written_of-sent now head rest a)
      (omega (arith, length-append (written_of a.outputs) (head ∷ [])))

-- The loop writes the head of the queue, entry by entry, and leaves the others in their order.
written_of-pump_loop :
    (accepts : Outgoing → Bool) (now : ℕ) (queue : List Outgoing) (a : Agent)
    → written_of (pump_loop accepts now queue a).outputs ++ (pump_loop accepts now queue a).queue
      ≡ written_of a.outputs ++ queue
unfolding pump_loop
written_of-pump_loop accepts now [] a = refl
written_of-pump_loop accepts now (head ∷ rest) a = ground (
  arith,
  written_of-pump_loop accepts now rest (sent now head rest a),
  written_of-sent now head rest a,
  append_assoc (written_of a.outputs) (head ∷ []) rest,
)

inflight-sent :
    (accepts : Outgoing → Bool) (now : ℕ) (head : Outgoing) (rest : List Outgoing) (a : Agent)
    → round_of accepts head a ≡ taken
    → length a.inflight ≤ a.max_in_flight
    → (length (sent now head rest a).inflight ≤ a.max_in_flight)
      × ((sent now head rest a).max_in_flight ≡ a.max_in_flight)
unfolding sent put round_of
inflight-sent accepts now head rest a h bound =
    let entry = record head { attempts = head.attempts + 1; sent_at = now } in
    elim (Option-cases (acked_id head.client_id)) [
      | inl unacked ↦ ground arith
      | inr (id, acked) ↦
          ground (arith, Map.length-set (key head.conversation_id id) entry a.inflight)
    ]

inflight-pump_loop :
    (accepts : Outgoing → Bool) (now : ℕ) (queue : List Outgoing) (a : Agent)
    → length a.inflight ≤ a.max_in_flight
    → (length (pump_loop accepts now queue a).inflight ≤ a.max_in_flight)
unfolding pump_loop
inflight-pump_loop accepts now [] a bound = bound
inflight-pump_loop accepts now (head ∷ rest) a bound = ground (
  arith,
  inflight-sent accepts now head rest a,
  inflight-pump_loop accepts now rest (sent now head rest a),
)

sent_tokens :
    (now : ℕ) (head : Outgoing) (rest : List Outgoing) (a : Agent)
    → ((sent now head rest a).millitokens ≡ a.millitokens - 1000)
      × ((sent now head rest a).tokens_at ≡ a.tokens_at)
      × ((sent now head rest a).fps ≡ a.fps)
unfolding sent put
sent_tokens now head rest a = ground arith

round_taken :
    (accepts : Outgoing → Bool) (head : Outgoing) (a : Agent)
    → round_of accepts head a ≡ taken
    → 1000 ≤ a.millitokens
unfolding round_of
round_taken accepts head a h = ground arith

-- Every write takes a whole token from the bucket.
pub spent-pump_loop :
    (accepts : Outgoing → Bool) (now : ℕ) (queue : List Outgoing) (a : Agent)
    → let b = pump_loop accepts now queue a in
      (spent b + b.millitokens ≡ spent a + a.millitokens)
      × (b.tokens_at ≡ a.tokens_at)
      × (b.fps ≡ a.fps)
unfolding pump_loop
spent-pump_loop accepts now [] a = (refl, refl, refl)
spent-pump_loop accepts now (head ∷ rest) a = ground (
  arith,
  length-sent now head rest a,
  sent_tokens now head rest a,
  round_taken accepts head a,
  spent-pump_loop accepts now rest (sent now head rest a),
)

-- A pump writes entries of the queue once each, from its head on: the writes so far and the queue,
-- in this order, are the same before and after. Unacknowledged sends within their
-- bound stay so.
pub pump_order :
    (accepts : Outgoing → Bool) (now : ℕ) (a : Agent)
    → length a.inflight ≤ a.max_in_flight
    → let b = pump accepts now a in
      (written_of b.outputs ++ b.queue ≡ written_of a.outputs ++ a.queue)
      × (length b.inflight ≤ a.max_in_flight)
unfolding pump refill
pump_order accepts now a bound =
    let (order, within) : (written_of (pump_loop accepts now a.queue (refill now a)).outputs
            ++ (pump_loop accepts now a.queue (refill now a)).queue
          ≡ written_of a.outputs ++ a.queue)
        × (length (pump_loop accepts now a.queue (refill now a)).inflight ≤ a.max_in_flight) =
      (
        written_of-pump_loop accepts now a.queue (refill now a),
        inflight-pump_loop accepts now a.queue (refill now a) bound,
      ) in
    ground (arith, order, within)
