-- ===== src/Agent/Turns/Lanes/Order.antt =====
-- agent.ts: the order in which the turns of a conversation are handled.
use converger.Prelude.{
  ℕ, ◌≡◌, refl, ◌∙◌, sym, ap, some, String, List, [], ◌∷◌, ◌++◌, arith, string_eq, append-nil,
  append_assoc, Option-cases, inl, inr,
}
use converger.Js.Map
use converger.Js.Map.{Map}
use converger.Agent.Turns.Lanes.{
  Phase, queued, waiting, granted, handling, ending, Lane, Turns, Outcome, abort_phase, abort_lane,
  abort, abort_all, stop, Step, dispatched, advanced, aborted_by_user, stop_called, advance_lane,
  advance, step, steps,
}
use converger.Agent.Turns.Lanes.Slots.{Invariant}
use converger.Agent.Turns.Lanes.Stepping.{step-Invariant}
use converger.Agent.Turns.Lanes.Bounded.{new_turns, new_turns-Invariant}
use converger.Agent.Turns.Lanes.Taking.{
  taken, untaken, pending, total, came, came_all, dispatch-total, begin_turn-total,
  call_handler-total, handler_settled-total, reply_ended-total, total-keep,
}

abbrev lane_at : ℕ → List ℕ → Phase → Lane
lane_at first rest phase = record { first = first; rest = rest; phase = phase }

lane_at-total :
    (id k : String) (turn : ℕ) (rest : List ℕ) (phase : Phase) (outcome : Outcome) (t : Turns)
    → Map.get id t.lanes ≡ some (lane_at turn rest phase)
    → Invariant 0 t
    → total k (advance_lane id (lane_at turn rest phase) outcome t) ≡ total k t
unfolding advance_lane
lane_at-total id k turn rest queued outcome t e i =
    begin_turn-total id k (lane_at turn rest queued) t e refl
lane_at-total id k turn rest waiting outcome t e i = refl
lane_at-total id k turn rest granted outcome t e i =
    call_handler-total id k (lane_at turn rest granted) t e refl
lane_at-total id k turn rest (handling aborted) outcome t e i =
    handler_settled-total id k (lane_at turn rest (handling aborted)) aborted outcome t e refl
lane_at-total id k turn rest ending outcome t e i =
    reply_ended-total id k (lane_at turn rest ending) t e refl i

advance_lane-total :
    (id k : String) (lane : Lane) (outcome : Outcome) (t : Turns)
    → Map.get id t.lanes ≡ some lane
    → Invariant 0 t
    → total k (advance_lane id lane outcome t) ≡ total k t
advance_lane-total id k lane outcome t e i =
    lane_at-total id k lane.first lane.rest lane.phase outcome t e i

untaken-abort_phase :
    (turn : ℕ) (rest : List ℕ) (phase : Phase)
    → untaken turn rest (abort_phase phase) ≡ untaken turn rest phase
untaken-abort_phase turn rest queued = refl
untaken-abort_phase turn rest waiting = refl
untaken-abort_phase turn rest granted = refl
untaken-abort_phase turn rest (handling aborted) = refl
untaken-abort_phase turn rest ending = refl

pending-abort_all :
    (k : String) (m : Map String Lane) → pending (Map.get k (abort_all m)) ≡ pending (Map.get k m)
unfolding abort_all Map.get
pending-abort_all k [] = refl
pending-abort_all k ((id, lane) ∷ m) =
    ground (arith, pending-abort_all k m, untaken-abort_phase lane.first lane.rest lane.phase)

stop-total : (k : String) (t : Turns) → total k (stop t) ≡ total k t
unfolding stop total
stop-total k t = ground (arith, pending-abort_all k t.lanes)

step-total :
    (k : String) (s : Step) (t : Turns) → Invariant 0 t → total k (step s t) ≡ total k t ++ came k s
unfolding step advance abort
step-total k (dispatched id turn) t i = dispatch-total id k turn t
step-total k (advanced id outcome) t i = elim (Option-cases (Map.get id t.lanes)) [
  | inl e ↦ rw (append-nil (total k t), e, advance) refl
  | inr (lane, e) ↦
      rw (append-nil (total k t), e, advance) (advance_lane-total id k lane outcome t e i)
]
step-total k (aborted_by_user id) t i = elim (Option-cases (Map.get id t.lanes)) [
  | inl e ↦ rw (append-nil (total k t), e, abort) refl
  | inr (lane, e) ↦
      rw (append-nil (total k t), e, abort)
        (total-keep id k (abort_lane lane) t
          (ground (arith, untaken-abort_phase lane.first lane.rest lane.phase)))
]
step-total k stop_called t i = rw (append-nil (total k t)) (stop-total k t)

steps-total :
    (k : String) (ss : List Step) (t : Turns)
    → Invariant 0 t
    → total k (steps ss t) ≡ total k t ++ came_all k ss
unfolding steps
steps-total k [] t i = sym (append-nil (total k t))
steps-total k (s ∷ ss) t i =
    steps-total k ss (step s t) (step-Invariant s t i)
    ∙ ap (λ (l : List ℕ). l ++ came_all k ss) (step-total k s t i)
    ∙ append_assoc (total k t) (came k s) (came_all k ss)

-- After any steps, the turns of a conversation that were handed to the handler, or skipped as the agent stopped,
-- followed by those that its lane still holds, are the turns that came, in the order in which they came.
pub turns_in_order :
    (limit : ℕ) (ss : List Step) (id : String)
    → taken id (steps ss (new_turns limit)).outputs
        ++ pending (Map.get id (steps ss (new_turns limit)).lanes)
      ≡ came_all id ss
unfolding total Map.get
turns_in_order limit ss id = steps-total id ss (new_turns limit) (new_turns-Invariant limit)
