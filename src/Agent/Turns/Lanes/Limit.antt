-- ===== src/Agent/Turns/Lanes/Limit.antt =====
-- agent.ts: the limit of the slots, which no step changes.
use converger.Prelude.{
  ℕ, ◌≡◌, refl, ◌∙◌, Bool, true, false, String, List, [], ◌∷◌, arith, string_eq, Option-cases, inl,
  inr,
}
use converger.Js.Map
use converger.Js.Map.{Map}
use converger.Agent.Turns.Lanes.{
  Phase, queued, waiting, granted, handling, ending, Lane, Turns, put, set_lane, dispatch, leave,
  acquire, begin_turn, call_handler, Outcome, returned, threw, report, handler_settled, grant,
  release, reply_ended, abort, stop, Step, dispatched, advanced, aborted_by_user, stop_called,
  advance_lane, advance, step, steps,
}

leave_limit :
    (id : String) (rest : List ℕ) (t : Turns) → (leave id rest t).max_concurrent ≡ t.max_concurrent
unfolding leave set_lane
leave_limit id [] t = refl
leave_limit id (next ∷ rest) t = refl

begin_turn_limit :
    (id : String) (lane : Lane) (turn : ℕ) (rest : List ℕ) (t : Turns)
    → (begin_turn id lane turn rest t).max_concurrent ≡ t.max_concurrent
unfolding begin_turn acquire set_lane put leave
begin_turn_limit id lane turn [] t = ground arith
begin_turn_limit id lane turn (next ∷ rest) t = ground arith

report_limit :
    (id : String) (turn : ℕ) (aborted : Bool) (outcome : Outcome) (t : Turns)
    → (report id turn aborted outcome t).max_concurrent ≡ t.max_concurrent
unfolding report put
report_limit id turn true outcome t = refl
report_limit id turn false returned t = refl
report_limit id turn false (threw code) t = refl

release_limit : (t : Turns) → (release t).max_concurrent ≡ t.max_concurrent
unfolding release grant set_lane
release_limit t = ground arith

abbrev lane_at : ℕ → List ℕ → Phase → Lane
lane_at first rest phase = record { first = first; rest = rest; phase = phase }

lane_at_limit :
    (id : String) (turn : ℕ) (rest : List ℕ) (phase : Phase) (outcome : Outcome) (t : Turns)
    → (advance_lane id (lane_at turn rest phase) outcome t).max_concurrent ≡ t.max_concurrent
unfolding advance_lane call_handler handler_settled reply_ended set_lane put
lane_at_limit id turn rest queued outcome t =
    begin_turn_limit id (lane_at turn rest queued) turn rest t
lane_at_limit id turn rest waiting outcome t = refl
lane_at_limit id turn rest granted outcome t = refl
lane_at_limit id turn rest (handling aborted) outcome t = report_limit id turn aborted outcome t
lane_at_limit id turn rest ending outcome t = leave_limit id rest (release t) ∙ release_limit t

advance_lane_limit :
    (id : String) (lane : Lane) (outcome : Outcome) (t : Turns)
    → (advance_lane id lane outcome t).max_concurrent ≡ t.max_concurrent
advance_lane_limit id lane outcome t = lane_at_limit id lane.first lane.rest lane.phase outcome t

step_limit : (s : Step) (t : Turns) → (step s t).max_concurrent ≡ t.max_concurrent
unfolding step dispatch advance abort stop set_lane
step_limit (dispatched id turn) t = ground arith
step_limit (advanced id outcome) t = elim (Option-cases (Map.get id t.lanes)) [
  | inl e ↦ rw (e, advance) refl
  | inr (lane, e) ↦ rw (e, advance) (advance_lane_limit id lane outcome t)
]
step_limit (aborted_by_user id) t = ground arith
step_limit stop_called t = ground arith

pub steps_limit : (ss : List Step) (t : Turns) → (steps ss t).max_concurrent ≡ t.max_concurrent
unfolding steps
steps_limit [] t = refl
steps_limit (s ∷ ss) t = steps_limit ss (step s t) ∙ step_limit s t
