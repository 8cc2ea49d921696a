-- ===== src/Agent/Turns/Lanes/Stepping.antt =====
-- agent.ts: the slots of turns, at each step.
use converger.Prelude.{
  ℕ, ◌≡◌, refl, ◌∙◌, not, ◌||◌, some, String, List, [], ◌∷◌, arith, string_eq, Option-cases,
  Bool-cases, inl, inr,
}
use converger.Js.Map
use converger.Js.Map.{Map}
use converger.Agent.Turns.Lanes.{
  Phase, queued, waiting, granted, handling, ending, Lane, Turns, Outcome, abort_phase, abort_lane,
  abort, abort_all, stop, Step, dispatched, advanced, aborted_by_user, stop_called, advance_lane,
  advance, step, steps,
}
use converger.Agent.Turns.Lanes.Slots.{
  held, is_waiting, waits, slots, Invariant, set_lane-Invariant,
}
use converger.Agent.Turns.Lanes.Turning.{
  dispatch-Invariant, begin_turn-Invariant, call_handler-Invariant, handler_settled-Invariant,
  reply_ended-Invariant,
}

abbrev lane_at : ℕ → List ℕ → Phase → Lane
lane_at first rest phase = record { first = first; rest = rest; phase = phase }

lane_at-Invariant :
    (id : String) (turn : ℕ) (rest : List ℕ) (phase : Phase) (outcome : Outcome) (t : Turns)
    → Map.get id t.lanes ≡ some (lane_at turn rest phase)
    → Invariant 0 t
    → Invariant 0 (advance_lane id (lane_at turn rest phase) outcome t)
unfolding advance_lane
lane_at-Invariant id turn rest queued outcome t e i =
    begin_turn-Invariant id (lane_at turn rest queued) turn rest t (rw e refl) (rw e refl) i
lane_at-Invariant id turn rest waiting outcome t e i = i
lane_at-Invariant id turn rest granted outcome t e i =
    call_handler-Invariant id (lane_at turn rest granted) turn t e refl i
lane_at-Invariant id turn rest (handling aborted) outcome t e i =
    handler_settled-Invariant id (lane_at turn rest (handling aborted)) turn aborted outcome t e
      refl i
lane_at-Invariant id turn rest ending outcome t e i =
    reply_ended-Invariant id rest (lane_at turn rest ending) t e refl i

advance_lane-Invariant :
    (id : String) (lane : Lane) (outcome : Outcome) (t : Turns)
    → Map.get id t.lanes ≡ some lane
    → Invariant 0 t
    → Invariant 0 (advance_lane id lane outcome t)
advance_lane-Invariant id lane outcome t e i =
    lane_at-Invariant id lane.first lane.rest lane.phase outcome t e i

advance-Invariant :
    (id : String) (outcome : Outcome) (t : Turns)
    → Invariant 0 t
    → Invariant 0 (advance id outcome t)
unfolding advance
advance-Invariant id outcome t i = elim (Option-cases (Map.get id t.lanes)) [
  | inl e ↦ rw (e, advance) i
  | inr (lane, e) ↦ rw (e, advance) (advance_lane-Invariant id lane outcome t e i)
]

-- Aborting changes no slot.
held-abort_phase :
    (p : Phase) → (held (abort_phase p) ≡ held p) × (is_waiting (abort_phase p) ≡ is_waiting p)
held-abort_phase queued = (refl, refl)
held-abort_phase waiting = (refl, refl)
held-abort_phase granted = (refl, refl)
held-abort_phase (handling aborted) = (refl, refl)
held-abort_phase ending = (refl, refl)

abort-Invariant : (id : String) (t : Turns) → Invariant 0 t → Invariant 0 (abort id t)
unfolding abort
abort-Invariant id t i = elim (Option-cases (Map.get id t.lanes)) [
  | inl e ↦ rw (e, abort) i
  | inr (lane, e) ↦
      let same = held-abort_phase lane.phase in
      rw (e, abort) (set_lane-Invariant 0 id (abort_lane lane) t (rw e same.0) (rw e same.1) i)
]

slots-abort_all : (m : Map String Lane) → slots (abort_all m) ≡ slots m
unfolding slots abort_all
slots-abort_all [] = refl
slots-abort_all ((id, lane) ∷ m) = omega (arith, slots-abort_all m, (held-abort_phase lane.phase).0)

has-abort_all : (id : String) (m : Map String Lane) → Map.has id (abort_all m) ≡ Map.has id m
unfolding abort_all Map.has
has-abort_all id [] = refl
has-abort_all id ((k, lane) ∷ m) = ground (arith, has-abort_all id m)

abort_all-IsUnique : (m : Map String Lane) → Map.IsUnique m → Map.IsUnique (abort_all m)
unfolding abort_all
abort_all-IsUnique [] u = u
abort_all-IsUnique ((id, lane) ∷ m) u = (has-abort_all id m ∙ u.0, abort_all-IsUnique m u.1)

waits-abort_all :
    (id : String) (m : Map String Lane) → waits (Map.get id (abort_all m)) ≡ waits (Map.get id m)
unfolding abort_all Map.get
waits-abort_all id [] = refl
waits-abort_all id ((k, lane) ∷ m) =
    ground (arith, waits-abort_all id m, held-abort_phase lane.phase)

stop-Invariant : (t : Turns) → Invariant 0 t → Invariant 0 (stop t)
unfolding stop
stop-Invariant t i = elim (Bool-cases (not t.running || t.stopping)) [
  | inl e ↦ rw (e, stop) i
  | inr e ↦
      rw (e, stop)
        (record {
          unique = abort_all-IsUnique t.lanes i.unique;
          count = omega (arith, i.count, slots-abort_all t.lanes);
          bound = i.bound;
          waiter = λ id. waits-abort_all id t.lanes ∙ i.waiter id;
          distinct = i.distinct;
          full = i.full;
        })
]

pub step-Invariant : (s : Step) (t : Turns) → Invariant 0 t → Invariant 0 (step s t)
unfolding step
step-Invariant (dispatched id turn) t i = dispatch-Invariant id turn t i
step-Invariant (advanced id outcome) t i = advance-Invariant id outcome t i
step-Invariant (aborted_by_user id) t i = abort-Invariant id t i
step-Invariant stop_called t i = stop-Invariant t i

pub steps-Invariant : (ss : List Step) (t : Turns) → Invariant 0 t → Invariant 0 (steps ss t)
unfolding steps
steps-Invariant [] t i = i
steps-Invariant (s ∷ ss) t i = steps-Invariant ss (step s t) (step-Invariant s t i)
