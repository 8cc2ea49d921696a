-- ===== src/Agent/Turns/Lanes/Slots.antt =====
-- agent.ts: the slots of turns, their count and who waits for one.
use converger.Prelude.{
  ℕ, suc, ◌+◌, ◌≤◌, ◌<◌, ◌≡◌, refl, ◌∙◌, sym, Bool, true, false, Option, none, some, String, List,
  [], ◌∷◌, ◌++◌, arith, string_eq,
}
use converger.Js.Set
use converger.Js.Map
use converger.Js.Map.{Map}
use converger.Agent.Turns.Lanes.{
  Phase, queued, waiting, granted, handling, ending, Lane, Turns, set_lane, leave,
}

-- The slots that a phase holds, and the handlers that run in it.
abbrev pub held : Phase → ℕ
held queued = 0
held waiting = 0
held granted = 1
held (handling aborted) = 1
held ending = 1

abbrev pub is_waiting : Phase → Bool
is_waiting waiting = true
is_waiting queued = false
is_waiting granted = false
is_waiting (handling aborted) = false
is_waiting ending = false

abbrev pub held_by : Option Lane → ℕ
held_by none = 0
held_by (some lane) = held lane.phase

abbrev pub waits : Option Lane → Bool
waits none = false
waits (some lane) = is_waiting lane.phase

unfoldable pub slots : Map String Lane → ℕ
slots [] = 0
slots ((id, lane) ∷ m) = held lane.phase + slots m

pub slots-set :
    (id : String) (lane : Lane) (m : Map String Lane)
    → slots (Map.set id lane m) + held_by (Map.get id m) ≡ slots m + held lane.phase
unfolding slots Map.set Map.get
slots-set id lane [] = omega arith
slots-set id lane ((k, other) ∷ m) = ground (arith, slots-set id lane m)

pub get-absent : (id : String) (m : Map String Lane) → Map.has id m ≡ false → Map.get id m ≡ none
unfolding Map.has Map.get
get-absent id [] h = refl
get-absent id ((k, other) ∷ m) h = ground (arith, get-absent id m)

slots-delete :
    (id : String) (m : Map String Lane)
    → Map.IsUnique m
    → slots (Map.delete id m) + held_by (Map.get id m) ≡ slots m
unfolding slots Map.delete Map.get
slots-delete id [] h = refl
slots-delete id ((k, other) ∷ m) h =
    ground (
      arith,
      slots-delete id m h.1,
      Map.delete-absent id m,
      get-absent id m,
      string_eq.same_iff k id,
    )

-- No conversation waits twice.
abbrev pub Distinct : List String → Type 0
Distinct [] = Unit
Distinct (id ∷ ids) = (Set.has id ids ≡ false) × Distinct ids

-- Where anyone waits, all slots are taken.
abbrev pub Full : List String → ℕ → ℕ → Type 0
Full [] limit active = Unit
Full (id ∷ ids) limit active = limit ≤ active

-- The invariant, where `over` slots are given back and not yet left.
pub record Invariant (over : ℕ) (t : Turns) : Type 0 where
  pub unique : Map.IsUnique t.lanes
  pub count : t.active + over ≡ slots t.lanes
  pub bound : t.active ≤ t.max_concurrent
  pub waiter : (id : String) → waits (Map.get id t.lanes) ≡ Set.has id t.waiters
  pub distinct : Distinct t.waiters
  pub full : Full t.waiters t.max_concurrent t.active

pub same_slots-Invariant :
    (over : ℕ) (s t : Turns)
    → t.lanes ≡ s.lanes
    → t.active ≡ s.active
    → t.max_concurrent ≡ s.max_concurrent
    → t.waiters ≡ s.waiters
    → Invariant over s
    → Invariant over t
same_slots-Invariant over s t l a m w i = record {
  unique = rw l i.unique;
  count = rw (l, a) i.count;
  bound = rw (a, m) i.bound;
  waiter = λ id. rw (l, w) (i.waiter id);
  distinct = rw w i.distinct;
  full = rw (w, m, a) i.full;
}

-- A lane that changes, and neither holds a slot more or less, nor starts or stops to wait.
pub set_lane-Invariant :
    (over : ℕ) (id : String) (lane : Lane) (t : Turns)
    → held lane.phase ≡ held_by (Map.get id t.lanes)
    → is_waiting lane.phase ≡ waits (Map.get id t.lanes)
    → Invariant over t
    → Invariant over (set_lane id lane t)
unfolding set_lane
set_lane-Invariant over id lane t h w i = record {
  unique = Map.set-IsUnique id lane t.lanes i.unique;
  count = omega (arith, i.count, slots-set id lane t.lanes, h);
  bound = i.bound;
  waiter = λ k.
      ground
        (arith, i.waiter k, i.waiter id, Map.get-set id k lane t.lanes, string_eq.same_iff id k);
  distinct = i.distinct;
  full = i.full;
}

-- A turn that leaves gives its slot back.
pub leave-Invariant :
    (over : ℕ) (id : String) (rest : List ℕ) (t : Turns)
    → over ≡ held_by (Map.get id t.lanes)
    → waits (Map.get id t.lanes) ≡ false
    → Invariant over t
    → Invariant 0 (leave id rest t)
unfolding leave set_lane
leave-Invariant over id [] t h w i = record {
  unique = Map.delete-IsUnique id t.lanes i.unique;
  count = omega (arith, i.count, slots-delete id t.lanes i.unique, h);
  bound = i.bound;
  waiter = λ k.
      ground (arith, i.waiter k, i.waiter id, Map.get-delete id k t.lanes, string_eq.same_iff id k);
  distinct = i.distinct;
  full = i.full;
}
leave-Invariant over id (next ∷ rest) t h w i =
    let lane : Lane = record { first = next; rest = rest; phase = queued } in
    record {
      unique = Map.set-IsUnique id lane t.lanes i.unique;
      count = omega (arith, i.count, slots-set id lane t.lanes, h);
      bound = i.bound;
      waiter = λ k.
          ground (
            arith,
            i.waiter k,
            i.waiter id,
            Map.get-set id k lane t.lanes,
            string_eq.same_iff id k,
          );
      distinct = i.distinct;
      full = i.full;
    }

Distinct-append :
    (id : String) (ids : List String)
    → Distinct ids
    → Set.has id ids ≡ false
    → Distinct (ids ++ id ∷ [])
unfolding Set.has
Distinct-append id [] d h = ground arith
Distinct-append id (k ∷ ids) d h = ground (
  arith,
  Distinct-append id ids d.1,
  Set.has-append id k ids,
  string_eq.same_iff id k,
  string_eq.same_iff k id,
)

Full-append :
    (id : String) (ids : List String) (limit active : ℕ)
    → limit ≤ active
    → Full (ids ++ id ∷ []) limit active
Full-append id [] limit active h = h
Full-append id (k ∷ ids) limit active h = h

pub Full-more :
    (ids : List String) (limit active : ℕ)
    → active < limit
    → Full ids limit active
    → Full ids limit (suc active)
Full-more [] limit active h f = f
Full-more (k ∷ ids) limit active h f = omega (arith, f)

-- A lane that acquires takes a slot or waits.
pub acquire_free :
    (id : String) (lane : Lane) (t : Turns)
    → held_by (Map.get id t.lanes) ≡ 0
    → waits (Map.get id t.lanes) ≡ false
    → t.active < t.max_concurrent
    → Invariant 0 t
    → Invariant 0
        (set_lane id (record lane { phase = granted }) (record t { active = suc t.active }))
unfolding set_lane
acquire_free id lane t h w l i =
    let lane' : Lane = record lane { phase = granted } in
    record {
      unique = Map.set-IsUnique id lane' t.lanes i.unique;
      count = omega (arith, i.count, slots-set id lane' t.lanes, h);
      bound = l;
      waiter = λ k.
          ground (
            arith,
            i.waiter k,
            i.waiter id,
            Map.get-set id k lane' t.lanes,
            string_eq.same_iff id k,
          );
      distinct = i.distinct;
      full = Full-more t.waiters t.max_concurrent t.active l i.full;
    }

pub acquire_full :
    (id : String) (lane : Lane) (t : Turns)
    → held_by (Map.get id t.lanes) ≡ 0
    → waits (Map.get id t.lanes) ≡ false
    → t.max_concurrent ≤ t.active
    → Invariant 0 t
    → Invariant 0 (
        set_lane id (record lane { phase = waiting }) (record t { waiters = t.waiters ++ id ∷ [] }))
unfolding set_lane
acquire_full id lane t h w l i =
    let lane' : Lane = record lane { phase = waiting } in
    record {
      unique = Map.set-IsUnique id lane' t.lanes i.unique;
      count = omega (arith, i.count, slots-set id lane' t.lanes, h);
      bound = i.bound;
      waiter = λ k. ground (
        arith,
        i.waiter k,
        i.waiter id,
        Map.get-set id k lane' t.lanes,
        Set.has-append id k t.waiters,
        string_eq.same_iff id k,
      );
      distinct = Distinct-append id t.waiters i.distinct (sym (i.waiter id) ∙ w);
      full = Full-append id t.waiters t.max_concurrent t.active l;
    }
