-- ===== src/Agent/Turns/Lanes/Taking.antt =====
-- agent.ts: the turns of a conversation that were taken, and those to come, at each operation on a lane.
use converger.Prelude.{
  ℕ, suc, ◌≡◌, refl, ◌∙◌, ap, Bool, true, false, not, ◌||◌, Option, none, some, String, List, [],
  ◌∷◌, ◌++◌, arith, string_eq, ◌==◌, if◌then◌else◌, ltb, append-nil, append_assoc, List-cases,
  Option-cases, Bool-cases, inl, inr,
}
use converger.Js.Map
use converger.Js.Map.{Map}
use converger.Agent.Turns.Asks
use converger.Agent.Turns.Asks.{Asks}
use converger.Agent.Turns.Lanes.{
  Phase, queued, waiting, granted, handling, ending, Lane, Output, handler_called, run_status,
  handler_error, skipped, Turns, put, set_lane, new_lane, dispatch, leave, acquire, begin_turn,
  call_handler, Outcome, returned, threw, report, handler_settled, release, reply_ended, Step,
  dispatched, advanced, aborted_by_user, stop_called,
}
use converger.Agent.Turns.Lanes.Slots.{Invariant}
use converger.Agent.Turns.Lanes.Turning.{release-none, release-waiter, first_waiter, release-get}

-- The turns of a conversation that were handed to the handler, or skipped, in order.
abbrev pub taken : String → List Output → List ℕ
taken id [] = []
taken id (handler_called k turn ∷ os) =
    let rest = taken id os in if k == id then turn ∷ rest else rest
taken id (skipped k turn ∷ os) = let rest = taken id os in if k == id then turn ∷ rest else rest
taken id (run_status k turn s ∷ os) = taken id os
taken id (handler_error c ∷ os) = taken id os

pub taken-append :
    (id : String) (os rs : List Output) → taken id (os ++ rs) ≡ taken id os ++ taken id rs
taken-append id [] rs = refl
taken-append id (handler_called k turn ∷ os) rs = ground (arith, taken-append id os rs)
taken-append id (skipped k turn ∷ os) rs = ground (arith, taken-append id os rs)
taken-append id (run_status k turn s ∷ os) rs = taken-append id os rs
taken-append id (handler_error c ∷ os) rs = taken-append id os rs

abbrev pub untaken : ℕ → List ℕ → Phase → List ℕ
untaken turn rest queued = turn ∷ rest
untaken turn rest waiting = turn ∷ rest
untaken turn rest granted = turn ∷ rest
untaken turn rest (handling aborted) = rest
untaken turn rest ending = rest

-- The turns of a lane that are still to be handed to the handler.
abbrev pub pending : Option Lane → List ℕ
pending none = []
pending (some lane) = untaken lane.first lane.rest lane.phase

unfoldable pub total : String → Turns → List ℕ
total id t = taken id t.outputs ++ pending (Map.get id t.lanes)

-- A change of a lane and of the outputs.
total-set :
    (id k : String) (lane : Lane) (t : Turns)
    → total k (set_lane id lane t)
      ≡ taken k t.outputs
        ++ (if id == k
            then untaken lane.first lane.rest lane.phase
            else pending (Map.get k t.lanes))
unfolding total set_lane
total-set id k lane t = ground (arith, Map.get-set id k lane t.lanes)

-- A lane that keeps its turns to come.
pub total-keep :
    (id k : String) (lane : Lane) (t : Turns)
    → untaken lane.first lane.rest lane.phase ≡ pending (Map.get id t.lanes)
    → total k (set_lane id lane t) ≡ total k t
unfolding total
total-keep id k lane t h = ground (arith, total-set id k lane t, string_eq.same_iff id k)

total-leave :
    (id k : String) (rest : List ℕ) (t : Turns)
    → total k (leave id rest t)
      ≡ taken k t.outputs ++ (if id == k then rest else pending (Map.get k t.lanes))
unfolding leave total set_lane
total-leave id k [] t = ground (arith, Map.get-delete id k t.lanes)
total-leave id k (next ∷ rest) t =
    ground (arith, Map.get-set id k (record { first = next; rest = rest; phase = queued }) t.lanes)

-- What a step brings.
abbrev pub came : String → Step → List ℕ
came id (dispatched k turn) = if k == id then turn ∷ [] else []
came id (advanced k outcome) = []
came id (aborted_by_user k) = []
came id stop_called = []

abbrev pub came_all : String → List Step → List ℕ
came_all id [] = []
came_all id (s ∷ ss) = came id s ++ came_all id ss

untaken-append :
    (first : ℕ) (rest : List ℕ) (phase : Phase) (turn : ℕ)
    → untaken first (rest ++ turn ∷ []) phase ≡ untaken first rest phase ++ turn ∷ []
untaken-append first rest queued turn = refl
untaken-append first rest waiting turn = refl
untaken-append first rest granted turn = refl
untaken-append first rest (handling aborted) turn = refl
untaken-append first rest ending turn = refl

dispatch-new :
    (id : String) (turn : ℕ) (t : Turns)
    → Map.get id t.lanes ≡ none
    → dispatch id turn t ≡ set_lane id (new_lane turn) t
unfolding dispatch
dispatch-new id turn t e = ground arith

dispatch-more :
    (id : String) (turn : ℕ) (lane : Lane) (t : Turns)
    → Map.get id t.lanes ≡ some lane
    → dispatch id turn t ≡ set_lane id (record lane { rest = lane.rest ++ turn ∷ [] }) t
unfolding dispatch
dispatch-more id turn lane t e = ground arith

pub dispatch-total :
    (id k : String) (turn : ℕ) (t : Turns)
    → total k (dispatch id turn t) ≡ total k t ++ came k (dispatched id turn)
unfolding total
dispatch-total id k turn t = elim (Option-cases (Map.get id t.lanes)) [
  | inl e ↦ ground (
    arith,
    dispatch-new id turn t e,
    total-set id k (new_lane turn) t,
    string_eq.same_iff id k,
    append_assoc (taken k t.outputs) (pending (Map.get k t.lanes)) (turn ∷ []),
    append-nil (taken k t.outputs ++ pending (Map.get k t.lanes)),
  )
  | inr (lane, e) ↦ ground (
    arith,
    dispatch-more id turn lane t e,
    total-set id k (record lane { rest = lane.rest ++ turn ∷ [] }) t,
    string_eq.same_iff id k,
    untaken-append lane.first lane.rest lane.phase turn,
    append_assoc (taken k t.outputs) (pending (Map.get k t.lanes)) (turn ∷ []),
    append-nil (taken k t.outputs ++ pending (Map.get k t.lanes)),
  )
]

-- A turn that is taken goes from the lane to the outputs.
taken-here :
    (id k : String) (turn : ℕ) (o : Output) (t : Turns)
    → (taken k (o ∷ []) ≡ (if id == k then turn ∷ [] else []))
    → taken k (put o t).outputs ≡ taken k t.outputs ++ (if id == k then turn ∷ [] else [])
unfolding put
taken-here id k turn o t h =
    taken-append k t.outputs (o ∷ []) ∙ ap (λ (l : List ℕ). taken k t.outputs ++ l) h

begin_turn-skip :
    (id : String) (lane : Lane) (t : Turns)
    → (not t.has_handler || (not t.running || t.stopping)) ≡ true
    → begin_turn id lane lane.first lane.rest t ≡ leave id lane.rest (put (skipped id lane.first) t)
unfolding begin_turn
begin_turn-skip id lane t b = ground arith

begin_turn-go :
    (id : String) (lane : Lane) (t : Turns)
    → (not t.has_handler || (not t.running || t.stopping)) ≡ false
    → begin_turn id lane lane.first lane.rest t ≡ acquire id lane t
unfolding begin_turn
begin_turn-go id lane t b = ground arith

put_lanes : (o : Output) (t : Turns) → (put o t).lanes ≡ t.lanes
unfolding put
put_lanes o t = refl

acquire-total :
    (id k : String) (lane : Lane) (t : Turns)
    → Map.get id t.lanes ≡ some lane
    → lane.phase ≡ queued
    → total k (acquire id lane t) ≡ total k t
unfolding acquire total
acquire-total id k lane t e p = elim (Bool-cases (ltb t.active t.max_concurrent)) [
  | inl b ↦
      rw (b, acquire)
        (total-keep id k (record lane { phase = granted }) (record t { active = suc t.active })
          (ground arith))
  | inr b ↦
      rw (b, acquire)
        (total-keep id k (record lane { phase = waiting })
          (record t { waiters = t.waiters ++ id ∷ [] }) (ground arith))
]

pub begin_turn-total :
    (id k : String) (lane : Lane) (t : Turns)
    → Map.get id t.lanes ≡ some lane
    → lane.phase ≡ queued
    → total k (begin_turn id lane lane.first lane.rest t) ≡ total k t
unfolding total
begin_turn-total id k lane t e p =
    elim (Bool-cases (not t.has_handler || (not t.running || t.stopping))) [
      | inl b ↦ ground (
        arith,
        begin_turn-skip id lane t b,
        total-leave id k lane.rest (put (skipped id lane.first) t),
        put_lanes (skipped id lane.first) t,
        taken-here id k lane.first (skipped id lane.first) t refl,
        string_eq.same_iff id k,
        append_assoc (taken k t.outputs) (lane.first ∷ []) lane.rest,
        append-nil (taken k t.outputs),
      )
      | inr b ↦ rw (begin_turn-go id lane t b) (acquire-total id k lane t e p)
    ]

set_lane_outputs :
    (id : String) (lane : Lane) (t : Turns) → (set_lane id lane t).outputs ≡ t.outputs
unfolding set_lane
set_lane_outputs id lane t = refl

set_lane_lanes :
    (id : String) (lane : Lane) (t : Turns) → (set_lane id lane t).lanes ≡ Map.set id lane t.lanes
unfolding set_lane
set_lane_lanes id lane t = refl

pub call_handler-total :
    (id k : String) (lane : Lane) (t : Turns)
    → Map.get id t.lanes ≡ some lane
    → lane.phase ≡ granted
    → total k (call_handler id lane lane.first t) ≡ total k t
unfolding call_handler total put
call_handler-total id k lane t e p =
    let lane' : Lane = record lane { phase = handling false } in
    ground (
      arith,
      total-set id k lane' t,
      set_lane_outputs id lane' t,
      taken-append k t.outputs (handler_called id lane.first ∷ []),
      string_eq.same_iff id k,
      append_assoc (taken k t.outputs) (lane.first ∷ []) lane.rest,
      append-nil (taken k t.outputs),
      Map.get-set id k lane' t.lanes,
      set_lane_lanes id lane' t,
    )

report_lanes :
    (id : String) (turn : ℕ) (aborted : Bool) (outcome : Outcome) (t : Turns)
    → (report id turn aborted outcome t).lanes ≡ t.lanes
unfolding report put
report_lanes id turn true outcome t = refl
report_lanes id turn false returned t = refl
report_lanes id turn false (threw code) t = refl

report-total :
    (id k : String) (turn : ℕ) (aborted : Bool) (outcome : Outcome) (t : Turns)
    → total k (report id turn aborted outcome t) ≡ total k t
unfolding report put total
report-total id k turn true outcome t = ground (
  arith,
  taken-append k t.outputs (run_status id turn "aborted" ∷ []),
  append-nil (taken k t.outputs),
)
report-total id k turn false returned t = ground (
  arith,
  taken-append k t.outputs (run_status id turn "finished" ∷ []),
  append-nil (taken k t.outputs),
)
report-total id k turn false (threw code) t = ground (
  arith,
  taken-append k (t.outputs ++ run_status id turn "error" ∷ []) (handler_error code ∷ []),
  taken-append k t.outputs (run_status id turn "error" ∷ []),
  append-nil (taken k t.outputs),
)

asks-total : (k : String) (a : Asks) (t : Turns) → total k (record t { asks = a }) ≡ total k t
unfolding total
asks-total k a t = refl

pub handler_settled-total :
    (id k : String) (lane : Lane) (aborted : Bool) (outcome : Outcome) (t : Turns)
    → Map.get id t.lanes ≡ some lane
    → lane.phase ≡ handling aborted
    → total k (handler_settled id lane lane.first aborted outcome t) ≡ total k t
unfolding handler_settled
handler_settled-total id k lane aborted outcome t e p =
    let t1 = report id lane.first aborted outcome t in
    let t2 = record t1 { asks = Asks.turn_ended id t1.asks } in
    total-keep id k (record lane { phase = ending }) t2
      (ground (arith, report_lanes id lane.first aborted outcome t))
    ∙ asks-total k (Asks.turn_ended id t1.asks) t1
    ∙ report-total id k lane.first aborted outcome t

release-total : (k : String) (t : Turns) → Invariant 0 t → total k (release t) ≡ total k t
unfolding total
release-total k t i = elim (List-cases t.waiters) [
  | inl w ↦ rw (release-none t w) refl
  | inr (id, ids, w) ↦
      let (lane, e, p) = first_waiter id ids t w i in
      rw (release-waiter id ids lane t w e) (
        total-keep id k (record lane { phase = granted }) (record t { waiters = ids })
          (ground arith))
]

leave-total :
    (id k : String) (lane : Lane) (t : Turns)
    → Map.get id t.lanes ≡ some lane
    → lane.phase ≡ ending
    → total k (leave id lane.rest t) ≡ total k t
unfolding total
leave-total id k lane t e p = ground (arith, total-leave id k lane.rest t, string_eq.same_iff id k)

pub reply_ended-total :
    (id k : String) (lane : Lane) (t : Turns)
    → Map.get id t.lanes ≡ some lane
    → lane.phase ≡ ending
    → Invariant 0 t
    → total k (reply_ended id lane.rest t) ≡ total k t
unfolding reply_ended
reply_ended-total id k lane t e p i =
    let t1 = release t in
    leave-total id k lane t1 (release-get id t (ground arith) i ∙ e) p ∙ release-total k t i
