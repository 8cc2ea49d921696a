-- ===== src/Agent/Turns/Asks/Settled.antt =====
-- agent.ts: the settlements of asks.
use converger.Prelude.{
  ℕ, suc, ◌+◌, ◌≤◌, ◌≡◌, refl, Option, none, some, String, List, [], ◌∷◌, ◌++◌, arith, string_eq,
  nat_eq, ◌==◌, option_eq, option_eq→eq, if◌then◌else◌, ltb, Option-cases, Bool-cases, inl, inr,
}
use text.Mathlib.Text.{starts_with}
use converger.Js.Map
use converger.Js.Map.{Map}
use converger.Agent.Outbound.{key}
use converger.Agent.Turns.Asks.{
  Output, answered, refused, resumed, Asks, put, close, wait_for_answer, give_up, answer,
  answer_all, on_resume, refuse_turn, prefix_of, turn_ended, refuse_all, stop,
}

-- How often a promise was settled.
abbrev pub settlements : ℕ → List Output → ℕ
settlements p [] = 0
settlements p (answered q v ∷ os) = let n = settlements p os in if q == p then suc n else n
settlements p (refused q c ∷ os) = let n = settlements p os in if q == p then suc n else n
settlements p (resumed c ids ∷ os) = settlements p os

settlements-append :
    (p : ℕ) (os rs : List Output) → settlements p (os ++ rs) ≡ settlements p os + settlements p rs
settlements-append p [] rs = omega arith
settlements-append p (answered q v ∷ os) rs = ground (arith, settlements-append p os rs)
settlements-append p (refused q c ∷ os) rs = ground (arith, settlements-append p os rs)
settlements-append p (resumed c ids ∷ os) rs = settlements-append p os rs

-- How many entries hold a promise.
abbrev pub holders : ℕ → Map String ℕ → ℕ
holders p [] = 0
holders p ((k, q) ∷ m) = let n = holders p m in if q == p then suc n else n

holders-set :
    (p : ℕ) (k : String) (q : ℕ) (m : Map String ℕ)
    → holders p (Map.set k q m) ≤ holders p m + (if q == p then 1 else 0)
unfolding Map.set
holders-set p k q [] = ground arith
holders-set p k q ((j, r) ∷ m) = ground (arith, holders-set p k q m)

holders-delete_any :
    (p : ℕ) (k : String) (m : Map String ℕ) → holders p (Map.delete k m) ≤ holders p m
unfolding Map.delete
holders-delete_any p k [] = omega arith
holders-delete_any p k ((j, r) ∷ m) = ground (arith, holders-delete_any p k m)

-- What is deleted is held no more.
holders-delete :
    (p : ℕ) (k : String) (m : Map String ℕ)
    → Map.get k m ≡ some p
    → holders p (Map.delete k m) + 1 ≤ holders p m
unfolding Map.delete Map.get
holders-delete p k [] h = ground arith
holders-delete p k ((j, r) ∷ m) h =
    ground (arith, holders-delete p k m, holders-delete_any p k m, nat_eq.same_iff r p)

-- A promise is held or settled once at most, and not at all before it is made.
record IsSound (p : ℕ) (a : Asks) : Type 0 where
  once : holders p a.pending + settlements p a.outputs ≤ (if ltb p a.made then 1 else 0)

put-resumed :
    (p : ℕ) (c : String) (ids : List String) (a : Asks)
    → IsSound p a
    → IsSound p (put (resumed c ids) a)
unfolding put
put-resumed p c ids a h = record {
  once = omega (arith, h.once, settlements-append p a.outputs (resumed c ids ∷ []));
}

close-answered :
    (p : ℕ) (k : String) (q : ℕ) (v : String) (a : Asks)
    → Map.get k a.pending ≡ some q
    → IsSound p a
    → IsSound p (close k (answered q v) a)
unfolding close put
close-answered p k q v a g h = ground (
  arith,
  h.once,
  settlements-append p a.outputs (answered q v ∷ []),
  holders-delete p k a.pending,
  holders-delete_any p k a.pending,
  nat_eq.same_iff q p,
)

close-refused :
    (p : ℕ) (k : String) (q : ℕ) (c : String) (a : Asks)
    → Map.get k a.pending ≡ some q
    → IsSound p a
    → IsSound p (close k (refused q c) a)
unfolding close put
close-refused p k q c a g h = ground (
  arith,
  h.once,
  settlements-append p a.outputs (refused q c ∷ []),
  holders-delete p k a.pending,
  holders-delete_any p k a.pending,
  nat_eq.same_iff q p,
)

wait_for_answer-IsSound :
    (p : ℕ) (conversation_id interrupt_id : String) (aborted : Option String) (a : Asks)
    → IsSound p a
    → IsSound p (wait_for_answer conversation_id interrupt_id aborted a)
unfolding wait_for_answer put
wait_for_answer-IsSound p conversation_id interrupt_id none a h = ground (
  arith,
  h.once,
  holders-set p (key conversation_id interrupt_id) a.made a.pending,
  nat_eq.same_iff a.made p,
)
wait_for_answer-IsSound p conversation_id interrupt_id (some code) a h = ground (
  arith,
  h.once,
  settlements-append p a.outputs (refused a.made code ∷ []),
  nat_eq.same_iff a.made p,
)

give_up-IsSound :
    (p : ℕ) (conversation_id interrupt_id : String) (q : ℕ) (code : String) (a : Asks)
    → IsSound p a
    → IsSound p (give_up conversation_id interrupt_id q code a)
unfolding give_up
give_up-IsSound p conversation_id interrupt_id q code a h =
    let k = key conversation_id interrupt_id in
    elim (Bool-cases (option_eq (Map.get k a.pending) (some q))) [
      | inl e ↦
          rw (e, give_up)
            (close-refused p k q code a (option_eq→eq (Map.get k a.pending) (some q) e) h)
      | inr e ↦ rw (e, give_up) h
    ]

answer-IsSound :
    (p : ℕ) (conversation_id id value : String) (matched : List String) (a : Asks)
    → IsSound p a
    → IsSound p (answer conversation_id id value (matched, a)).1
unfolding answer
answer-IsSound p conversation_id id value matched a h =
    let k = key conversation_id id in
    elim (Option-cases (Map.get k a.pending)) [
      | inl e ↦ rw (e, answer) h
      | inr (q, e) ↦ rw (e, answer) (close-answered p k q value a e h)
    ]

answer_all-IsSound :
    (p : ℕ) (conversation_id : String) (answers : List (String × String)) (matched : List String)
    (a : Asks)
    → IsSound p a
    → IsSound p (answer_all conversation_id answers (matched, a)).1
unfolding answer_all
answer_all-IsSound p conversation_id [] matched a h = h
answer_all-IsSound p conversation_id ((id, value) ∷ answers) matched a h =
    let r = answer conversation_id id value (matched, a) in
    answer_all-IsSound p conversation_id answers r.0 r.1
      (answer-IsSound p conversation_id id value matched a h)

refuse_turn-holders :
    (p : ℕ) (prefix : String) (m : Map String ℕ)
    → holders p (refuse_turn prefix m).0 + settlements p (refuse_turn prefix m).1 ≡ holders p m
unfolding refuse_turn
refuse_turn-holders p prefix [] = refl
refuse_turn-holders p prefix ((k, q) ∷ m) = ground (arith, refuse_turn-holders p prefix m)

refuse_all-holders : (p : ℕ) (m : Map String ℕ) → settlements p (refuse_all m) ≡ holders p m
unfolding refuse_all
refuse_all-holders p [] = refl
refuse_all-holders p ((k, q) ∷ m) = ground (arith, refuse_all-holders p m)

-- What happens to the asks.
pub data Step : Type 0 where
  asked : String → String → Option String → Step
  gave_up : String → String → ℕ → String → Step
  resume : String → List (String × String) → Step
  ended : String → Step
  stopped : Step

unfoldable pub step : Step → Asks → Asks
step (asked c id aborted) a = wait_for_answer c id aborted a
step (gave_up c id promise code) a = give_up c id promise code a
step (resume c answers) a = on_resume c answers a
step (ended c) a = turn_ended c a
step stopped a = stop a

unfoldable pub steps : List Step → Asks → Asks
steps [] a = a
steps (s ∷ ss) a = steps ss (step s a)

step-IsSound : (p : ℕ) (s : Step) (a : Asks) → IsSound p a → IsSound p (step s a)
unfolding step on_resume turn_ended stop
step-IsSound p (asked c id aborted) a h = wait_for_answer-IsSound p c id aborted a h
step-IsSound p (gave_up c id promise code) a h = give_up-IsSound p c id promise code a h
step-IsSound p (resume c answers) a h =
    let r = answer_all c answers ([], a) in
    put-resumed p c r.0 r.1 (answer_all-IsSound p c answers [] a h)
step-IsSound p (ended c) a h = ground (
  arith,
  h.once,
  settlements-append p a.outputs (refuse_turn (prefix_of c) a.pending).1,
  refuse_turn-holders p (prefix_of c) a.pending,
)
step-IsSound p stopped a h = ground (
  arith,
  h.once,
  settlements-append p a.outputs (refuse_all a.pending),
  refuse_all-holders p a.pending,
)

steps-IsSound : (p : ℕ) (ss : List Step) (a : Asks) → IsSound p a → IsSound p (steps ss a)
unfolding steps
steps-IsSound p [] a h = h
steps-IsSound p (s ∷ ss) a h = steps-IsSound p ss (step s a) (step-IsSound p s a h)

abbrev pub new_asks : Asks
new_asks = record { pending = []; made = 0; outputs = [] }

-- Whatever happens, and in any order, no ask is settled twice.
pub ask_settled_once : (p : ℕ) (ss : List Step) → settlements p (steps ss new_asks).outputs ≤ 1
ask_settled_once p ss = ground (arith, (steps-IsSound p ss new_asks (ground arith)).once)

refuse_turn-get :
    (prefix k : String) (m : Map String ℕ)
    → Map.get k (refuse_turn prefix m).0 ≡ (if starts_with k prefix then none else Map.get k m)
unfolding refuse_turn Map.get
refuse_turn-get prefix k [] = ground arith
refuse_turn-get prefix k ((j, q) ∷ m) =
    ground (arith, refuse_turn-get prefix k m, string_eq.same_iff j k)

-- The end of a turn takes away the asks of its conversation, by their keys, and no other; each that it takes away is
-- refused, since for every promise as many settlements are added as entries are taken away.
pub turn_ended_lem :
    (conversation_id k : String) (p : ℕ) (a : Asks)
    → (Map.get k (turn_ended conversation_id a).pending
        ≡ (if starts_with k (prefix_of conversation_id) then none else Map.get k a.pending))
      × (holders p (turn_ended conversation_id a).pending
            + settlements p (turn_ended conversation_id a).outputs
          ≡ holders p a.pending + settlements p a.outputs)
unfolding turn_ended
turn_ended_lem conversation_id k p a = (
  refuse_turn-get (prefix_of conversation_id) k a.pending,
  omega (
    arith,
    settlements-append p a.outputs (refuse_turn (prefix_of conversation_id) a.pending).1,
    refuse_turn-holders p (prefix_of conversation_id) a.pending,
  ),
)
