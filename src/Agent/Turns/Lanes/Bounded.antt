-- ===== src/Agent/Turns/Lanes/Bounded.antt =====
-- agent.ts: the slots and the handlers of turns after any steps.
use converger.Prelude.{
  ℕ, ◌+◌, ◌≤◌, ◌≡◌, refl, ◌∙◌, sym, max, true, false, String, List, [], ◌∷◌, arith, string_eq,
}
use converger.Js.Set
use converger.Js.Map
use converger.Js.Map.{Map}
use converger.Agent.Turns.Lanes.{
  Phase, queued, waiting, granted, handling, ending, Lane, Turns, Step, steps,
}
use converger.Agent.Turns.Lanes.Slots.{waits, slots, Full, Invariant}
use converger.Agent.Turns.Lanes.Stepping.{steps-Invariant}
use converger.Agent.Turns.Lanes.Limit.{steps_limit}

-- The handlers that run.
abbrev runs : Phase → ℕ
runs queued = 0
runs waiting = 0
runs granted = 0
runs (handling aborted) = 1
runs ending = 0

unfoldable pub handlers : Map String Lane → ℕ
unfolding runs
handlers [] = 0
handlers ((id, lane) ∷ m) = runs lane.phase + handlers m

handlers-le : (m : Map String Lane) → handlers m ≤ slots m
unfolding handlers slots
handlers-le [] = omega arith
handlers-le ((id, lane) ∷ m) = ground (arith, handlers-le m)

-- An agent before its first turn; `maxConcurrentTurns` is as it was given.
abbrev pub new_turns : ℕ → Turns
new_turns limit = record {
  has_handler = true;
  running = true;
  stopping = false;
  max_concurrent = max 1 limit;
  active = 0;
  waiters = [];
  lanes = [];
  asks = record { pending = []; made = 0; outputs = [] };
  outputs = [];
}

pub new_turns-Invariant : (limit : ℕ) → Invariant 0 (new_turns limit)
unfolding slots Map.get Set.has
new_turns-Invariant limit = record {
  unique = ground arith;
  count = refl;
  bound = omega arith;
  waiter = λ id. refl;
  distinct = ground arith;
  full = ground arith;
}

Full-le :
    (id : String) (ids : List String) (limit active : ℕ)
    → Set.has id ids ≡ true
    → Full ids limit active
    → limit ≤ active
unfolding Set.has
Full-le id [] limit active h f = ground arith
Full-le id (k ∷ ids) limit active h f = f

full_at :
    (id : String) (t : Turns)
    → Invariant 0 t
    → waits (Map.get id t.lanes) ≡ true
    → t.max_concurrent ≤ t.active
full_at id t i w = Full-le id t.waiters t.max_concurrent t.active (sym (i.waiter id) ∙ w) i.full

-- Whatever turns come, abort and end, and in any order, at most `maxConcurrentTurns` handlers run at a time, and 1
-- where that is 0.
pub handlers_bounded :
    (limit : ℕ) (ss : List Step) → handlers (steps ss (new_turns limit)).lanes ≤ max 1 limit
handlers_bounded limit ss =
    let t = steps ss (new_turns limit) in
    let i = steps-Invariant ss (new_turns limit) (new_turns-Invariant limit) in
    omega (arith, handlers-le t.lanes, i.count, i.bound, steps_limit ss (new_turns limit))

-- A lane waits only while as many lanes hold a slot as may.
pub waits_only_if_full :
    (limit : ℕ) (ss : List Step) (id : String)
    → waits (Map.get id (steps ss (new_turns limit)).lanes) ≡ true
    → slots (steps ss (new_turns limit)).lanes ≡ max 1 limit
waits_only_if_full limit ss id w =
    let t = steps ss (new_turns limit) in
    let i = steps-Invariant ss (new_turns limit) (new_turns-Invariant limit) in
    omega (arith, full_at id t i w, i.count, i.bound, steps_limit ss (new_turns limit))
