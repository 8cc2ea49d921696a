-- ===== src/Agent/Turns/Lanes/Turning.antt =====
-- agent.ts: the slots of turns, at each operation on a lane.
use converger.Prelude.{
  ℕ, ◌-◌, ◌≤◌, ◌<◌, ◌≡◌, refl, sym, Bool, true, false, not, ◌||◌, some, String, List, [], ◌∷◌, ◌++◌,
  arith, string_eq, ◌==◌, if◌then◌else◌, ltb, List-cases, Option-cases, Bool-cases, inl, inr,
  same_refl,
}
use converger.Js.Set
use converger.Js.Map
use converger.Js.Map.{Map}
use converger.Agent.Turns.Asks
use converger.Agent.Turns.Asks.{Asks}
use converger.Agent.Turns.Lanes.{
  Phase, queued, waiting, granted, handling, ending, Lane, Output, handler_called, skipped, Turns,
  put, set_lane, new_lane, dispatch, acquire, begin_turn, call_handler, Outcome, report,
  handler_settled, grant, release, reply_ended, returned, threw,
}
use converger.Agent.Turns.Lanes.Slots.{
  is_waiting, held_by, waits, slots, slots-set, Distinct, Full, Invariant, same_slots-Invariant,
  set_lane-Invariant, leave-Invariant, acquire_free, acquire_full,
}

pub dispatch-Invariant :
    (id : String) (turn : ℕ) (t : Turns) → Invariant 0 t → Invariant 0 (dispatch id turn t)
unfolding dispatch
dispatch-Invariant id turn t i = elim (Option-cases (Map.get id t.lanes)) [
  | inl e ↦ rw (e, dispatch) (set_lane-Invariant 0 id (new_lane turn) t (rw e refl) (rw e refl) i)
  | inr (lane, e) ↦
      rw (e, dispatch)
        (set_lane-Invariant 0 id (record lane { rest = lane.rest ++ turn ∷ [] }) t (rw e refl)
          (rw e refl) i)
]

acquire-Invariant :
    (id : String) (lane : Lane) (t : Turns)
    → held_by (Map.get id t.lanes) ≡ 0
    → waits (Map.get id t.lanes) ≡ false
    → Invariant 0 t
    → Invariant 0 (acquire id lane t)
unfolding acquire
acquire-Invariant id lane t h w i = elim (Bool-cases (ltb t.active t.max_concurrent)) [
  | inl e ↦ rw (e, acquire) (acquire_free id lane t h w (ground arith) i)
  | inr e ↦ rw (e, acquire) (acquire_full id lane t h w (ground arith) i)
]

put-Invariant : (over : ℕ) (o : Output) (t : Turns) → Invariant over t → Invariant over (put o t)
unfolding put
put-Invariant over o t i = same_slots-Invariant over t (put o t) refl refl refl refl i

pub begin_turn-Invariant :
    (id : String) (lane : Lane) (turn : ℕ) (rest : List ℕ) (t : Turns)
    → held_by (Map.get id t.lanes) ≡ 0
    → waits (Map.get id t.lanes) ≡ false
    → Invariant 0 t
    → Invariant 0 (begin_turn id lane turn rest t)
unfolding begin_turn put
begin_turn-Invariant id lane turn rest t h w i =
    elim (Bool-cases (not t.has_handler || (not t.running || t.stopping))) [
      | inl e ↦
          rw (e, begin_turn)
            (leave-Invariant 0 id rest (put (skipped id turn) t) (sym h) w
              (put-Invariant 0 (skipped id turn) t i))
      | inr e ↦ rw (e, begin_turn) (acquire-Invariant id lane t h w i)
    ]

report_same :
    (id : String) (turn : ℕ) (aborted : Bool) (outcome : Outcome) (t : Turns)
    → ((report id turn aborted outcome t).lanes ≡ t.lanes)
      × ((report id turn aborted outcome t).active ≡ t.active)
      × ((report id turn aborted outcome t).max_concurrent ≡ t.max_concurrent)
      × ((report id turn aborted outcome t).waiters ≡ t.waiters)
unfolding report put
report_same id turn true outcome t = (refl, refl, refl, refl)
report_same id turn false returned t = (refl, refl, refl, refl)
report_same id turn false (threw code) t = (refl, refl, refl, refl)

pub handler_settled-Invariant :
    (id : String) (lane : Lane) (turn : ℕ) (aborted : Bool) (outcome : Outcome) (t : Turns)
    → Map.get id t.lanes ≡ some lane
    → lane.phase ≡ handling aborted
    → Invariant 0 t
    → Invariant 0 (handler_settled id lane turn aborted outcome t)
unfolding handler_settled
handler_settled-Invariant id lane turn aborted outcome t e p i =
    let t1 = report id turn aborted outcome t in
    let t2 = record t1 { asks = Asks.turn_ended id t1.asks } in
    let same = report_same id turn aborted outcome t in
    set_lane-Invariant 0 id (record lane { phase = ending }) t2 (ground (arith, same))
      (ground (arith, same)) (same_slots-Invariant 0 t t2 same.0 same.1 same.2 same.3 i)

pub call_handler-Invariant :
    (id : String) (lane : Lane) (turn : ℕ) (t : Turns)
    → Map.get id t.lanes ≡ some lane
    → lane.phase ≡ granted
    → Invariant 0 t
    → Invariant 0 (call_handler id lane turn t)
unfolding call_handler
call_handler-Invariant id lane turn t e p i =
    let lane' : Lane = record lane { phase = handling false } in
    put-Invariant 0 (handler_called id turn) (set_lane id lane' t)
      (set_lane-Invariant 0 id lane' t (ground arith) (ground arith) i)

held_by-le : (id : String) (m : Map String Lane) → held_by (Map.get id m) ≤ slots m
unfolding slots Map.get
held_by-le id [] = omega arith
held_by-le id ((k, lane) ∷ m) = ground (arith, held_by-le id m)

has-cons :
    (k id : String) (ids : List String)
    → Set.has k (id ∷ ids) ≡ (if id == k then true else Set.has k ids)
unfolding Set.has
has-cons k id ids = refl

Full-all : (ids : List String) (limit active : ℕ) → limit ≤ active → Full ids limit active
Full-all [] limit active h = ground arith
Full-all (id ∷ ids) limit active h = h

-- A waiter takes a slot over.
grant-Invariant :
    (id : String) (ids : List String) (lane : Lane) (t : Turns)
    → t.waiters ≡ id ∷ ids
    → Map.get id t.lanes ≡ some lane
    → lane.phase ≡ waiting
    → Invariant 0 t
    → Invariant 1 (set_lane id (record lane { phase = granted }) (record t { waiters = ids }))
unfolding set_lane
grant-Invariant id ids lane t w e p i =
    let lane' : Lane = record lane { phase = granted } in
    let d : Distinct (id ∷ ids) = rw w at (i.distinct) in
    let f : t.max_concurrent ≤ t.active = rw w at (i.full) in
    record {
      unique = Map.set-IsUnique id lane' t.lanes i.unique;
      count = ground (arith, i.count, slots-set id lane' t.lanes);
      bound = i.bound;
      waiter = λ k. ground (
        arith,
        i.waiter k,
        w,
        has-cons k id ids,
        Map.get-set id k lane' t.lanes,
        string_eq.same_iff id k,
        d.0,
      );
      distinct = d.1;
      full = Full-all ids t.max_concurrent t.active f;
    }

pub release-none : (t : Turns) → t.waiters ≡ [] → release t ≡ record t { active = t.active - 1 }
unfolding release
release-none t w = ground arith

pub release-waiter :
    (id : String) (ids : List String) (lane : Lane) (t : Turns)
    → t.waiters ≡ id ∷ ids
    → Map.get id t.lanes ≡ some lane
    → release t ≡ set_lane id (record lane { phase = granted }) (record t { waiters = ids })
unfolding release grant
release-waiter id ids lane t w e = ground arith

-- The lane of the first waiter.
waiting-phase : (p : Phase) → is_waiting p ≡ true → p ≡ waiting
waiting-phase waiting h = refl
waiting-phase queued h = ground arith
waiting-phase granted h = ground arith
waiting-phase (handling aborted) h = ground arith
waiting-phase ending h = ground arith

pub first_waiter :
    (id : String) (ids : List String) (t : Turns)
    → t.waiters ≡ id ∷ ids
    → Invariant 0 t
    → (lane : Lane) × (Map.get id t.lanes ≡ some lane) × (lane.phase ≡ waiting)
first_waiter id ids t w i = elim (Option-cases (Map.get id t.lanes)) [
  | inl e ↦ ground (arith, i.waiter id, has-cons id id ids, same_refl id)
  | inr (lane, e) ↦ (
    lane,
    e,
    waiting-phase lane.phase (ground (arith, i.waiter id, has-cons id id ids, same_refl id)),
  )
]

release-Invariant : (t : Turns) → 0 < t.active → Invariant 0 t → Invariant 1 (release t)
release-Invariant t h i = elim (List-cases t.waiters) [
  | inl w ↦ rw (release-none t w) (record {
    unique = i.unique;
    count = omega (arith, i.count, h);
    bound = omega (arith, i.bound);
    waiter = i.waiter;
    distinct = i.distinct;
    full = rw w (ground arith);
  })
  | inr (id, ids, w) ↦
      let (lane, e, p) = first_waiter id ids t w i in
      rw (release-waiter id ids lane t w e) (grant-Invariant id ids lane t w e p i)
]

pub release-get :
    (id : String) (t : Turns)
    → waits (Map.get id t.lanes) ≡ false
    → Invariant 0 t
    → Map.get id (release t).lanes ≡ Map.get id t.lanes
unfolding set_lane
release-get id t n i = elim (List-cases t.waiters) [
  | inl w ↦ rw (release-none t w) refl
  | inr (k, ids, w) ↦
      let (lane, e, p) = first_waiter k ids t w i in
      rw (release-waiter k ids lane t w e) (
        ground (
          arith,
          Map.get-set k id (record lane { phase = granted }) t.lanes,
          string_eq.same_iff k id,
        ))
]

pub reply_ended-Invariant :
    (id : String) (rest : List ℕ) (lane : Lane) (t : Turns)
    → Map.get id t.lanes ≡ some lane
    → lane.phase ≡ ending
    → Invariant 0 t
    → Invariant 0 (reply_ended id rest t)
unfolding reply_ended
reply_ended-Invariant id rest lane t e p i =
    let same = release-get id t (ground arith) i in
    leave-Invariant 1 id rest (release t) (ground (arith, same)) (ground (arith, same))
      (release-Invariant t (ground (arith, i.count, held_by-le id t.lanes)) i)
