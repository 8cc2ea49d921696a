-- ===== src/Agent/Turns/Lanes.antt =====
-- agent.ts: `#dispatch`, `#runTurn`, `#acquire` and `#release`, as the steps between which other code runs. A lane's
-- promise chain is its first turn, the one that runs, and the rest; `queued` counts them. A controller is its turn's phase and whether
-- it was aborted.
pub mod Slots
mod Turning
mod Stepping
mod Limit
pub mod Bounded
pub mod Taking
pub mod Order
use converger.Prelude.{
  ℕ, suc, ◌+◌, ◌-◌, Bool, true, false, not, ◌&&◌, ◌||◌, Option, none, some, String, List, [], ◌∷◌,
  ◌++◌, string_eq, nat_eq, ◌==◌, if◌then◌else◌, length, ltb,
}
use converger.Js.Map
use converger.Js.Map.{Map}
use converger.Agent.Turns.Asks
use converger.Agent.Turns.Asks.{Asks}

-- Where the first turn of a lane is: its `then` has not run, it waits for a slot, it got one, its handler runs (and
-- was aborted, or not), or `reply.end` runs.
pub data Phase : Type 0 where
  queued waiting granted : Phase
  handling : Bool → Phase
  ending : Phase

-- Lane; a turn is the number of its frame.
pub record Lane : Type 0 where
  pub first : ℕ
  pub rest : List ℕ
  pub phase : Phase

pub data Output : Type 0 where
  handler_called : String → ℕ → Output
  run_status : String → ℕ → String → Output
  handler_error : String → Output
  skipped : String → ℕ → Output

pub record Turns : Type 0 where
  pub has_handler : Bool
  pub running : Bool
  pub stopping : Bool
  pub max_concurrent : ℕ
  pub active : ℕ
  pub waiters : List String
  pub lanes : Map String Lane
  pub asks : Asks
  pub outputs : List Output

unfoldable pub put : Output → Turns → Turns
put o t = record t { outputs = t.outputs ++ o ∷ [] }

unfoldable pub set_lane : String → Lane → Turns → Turns
set_lane id lane t = record t { lanes = Map.set id lane t.lanes }

abbrev pub new_lane : ℕ → Lane
new_lane turn = record { first = turn; rest = []; phase = queued }

-- #dispatch
unfoldable pub dispatch : String → ℕ → Turns → Turns
dispatch id turn t = elim (Map.get id t.lanes) [
  | none ↦ set_lane id (new_lane turn) t
  | some lane ↦ set_lane id (record lane { rest = lane.rest ++ turn ∷ [] }) t
]

-- The `finally` of a turn's link in the chain: the next turn, or no lane.
unfoldable pub leave : String → List ℕ → Turns → Turns
leave id [] t = record t { lanes = Map.delete id t.lanes }
leave id (next ∷ rest) t = set_lane id (record { first = next; rest = rest; phase = queued }) t

-- #acquire: a slot, or a place among the waiters.
unfoldable pub acquire : String → Lane → Turns → Turns
acquire id lane t =
    if ltb t.active t.max_concurrent
    then set_lane id (record lane { phase = granted }) (record t { active = suc t.active })
    else set_lane id (record lane { phase = waiting }) (record t { waiters = t.waiters ++ id ∷ [] })

-- #runTurn, up to `await this.#acquire()`, of the first turn of a lane.
unfoldable pub begin_turn : String → Lane → ℕ → List ℕ → Turns → Turns
begin_turn id lane turn rest t =
    if not t.has_handler || (not t.running || t.stopping)
    then leave id rest (put (skipped id turn) t)
    else acquire id lane t

-- #runTurn, from the slot to the handler's call.
unfoldable pub call_handler : String → Lane → ℕ → Turns → Turns
call_handler id lane turn t =
    put (handler_called id turn) (set_lane id (record lane { phase = handling false }) t)

-- How a handler settled.
pub data Outcome : Type 0 where
  returned : Outcome
  threw : String → Outcome

-- `cause instanceof AgentError && cause.code !== "handler_error"` has the cause emitted as it is; here a cause is
-- named by the code it is emitted by.
unfoldable pub report : String → ℕ → Bool → Outcome → Turns → Turns
report id turn true outcome t = put (run_status id turn "aborted") t
report id turn false returned t = put (run_status id turn "finished") t
report id turn false (threw code) t = put (handler_error code) (put (run_status id turn "error") t)

-- #runTurn, from the end of the handler to `reply.end()`.
unfoldable pub handler_settled : String → Lane → ℕ → Bool → Outcome → Turns → Turns
handler_settled id lane turn aborted outcome t =
    let t1 = report id turn aborted outcome t in
    set_lane id (record lane { phase = ending }) (record t1 { asks = Asks.turn_ended id t1.asks })

-- The lane of a waiter goes on.
unfoldable pub grant : String → Turns → Turns
grant id t = elim (Map.get id t.lanes) [
  | none ↦ t
  | some lane ↦ set_lane id (record lane { phase = granted }) t
]

-- #release: the first waiter takes the slot over.
unfoldable pub release : Turns → Turns
release t = elim t.waiters [
  | [] ↦ record t { active = t.active - 1 }
  | id ∷ ids ↦ grant id (record t { waiters = ids })
]

-- #runTurn, after `reply.end()`.
unfoldable pub reply_ended : String → List ℕ → Turns → Turns
reply_ended id rest t = leave id rest (release t)

-- `controller?.abort`: there is a controller while the handler runs.
abbrev pub abort_phase : Phase → Phase
abort_phase (handling aborted) = handling true
abort_phase queued = queued
abort_phase waiting = waiting
abort_phase granted = granted
abort_phase ending = ending

abbrev pub abort_lane : Lane → Lane
abort_lane lane = record lane { phase = abort_phase lane.phase }

-- The `abort` frame of a conversation.
unfoldable pub abort : String → Turns → Turns
abort id t = elim (Map.get id t.lanes) [ none ↦ t | some lane ↦ set_lane id (abort_lane lane) t ]

-- The loop of `stop` over the lanes.
unfoldable pub abort_all : Map String Lane → Map String Lane
abort_all [] = []
abort_all ((id, lane) ∷ m) = (id, abort_lane lane) ∷ abort_all m

-- `stop`, up to its first wait.
unfoldable pub stop : Turns → Turns
stop t =
    if not t.running || t.stopping
    then t
    else record t { stopping = true; lanes = abort_all t.lanes; asks = Asks.stop t.asks }

-- What happens next: a turn comes, the first turn of a lane goes on to its next wait, its handler settles, an abort.
pub data Step : Type 0 where
  dispatched : String → ℕ → Step
  advanced : String → Outcome → Step
  aborted_by_user : String → Step
  stop_called : Step

-- A lane goes on from where it is; a waiting one waits for #release.
unfoldable pub advance_lane : String → Lane → Outcome → Turns → Turns
advance_lane id lane outcome t = elim lane.phase [
  | queued ↦ begin_turn id lane lane.first lane.rest t
  | waiting ↦ t
  | granted ↦ call_handler id lane lane.first t
  | handling aborted ↦ handler_settled id lane lane.first aborted outcome t
  | ending ↦ reply_ended id lane.rest t
]

unfoldable pub advance : String → Outcome → Turns → Turns
advance id outcome t = elim (Map.get id t.lanes) [
  | none ↦ t
  | some lane ↦ advance_lane id lane outcome t
]

unfoldable pub step : Step → Turns → Turns
step (dispatched id turn) t = dispatch id turn t
step (advanced id outcome) t = advance id outcome t
step (aborted_by_user id) t = abort id t
step stop_called t = stop t

unfoldable pub steps : List Step → Turns → Turns
steps [] t = t
steps (s ∷ ss) t = steps ss (step s t)
