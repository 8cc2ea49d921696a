-- ===== src/Agent/Turns/Asks.antt =====
-- agent.ts: `#waitForAnswer`, `#onResume` and the ends of asks. A promise is named by the number of its ask,
-- which also tells one entry from another.
pub mod Settled
use converger.Prelude.{
  ℕ, suc, Bool, true, false, Option, none, some, String, List, [], ◌∷◌, ◌++◌, string_eq, nat_eq,
  ◌==◌, option_eq, if◌then◌else◌,
}
use Prim.Native.String
use text.Mathlib.Text.{starts_with}
use converger.Js.Map
use converger.Js.Map.{Map}
use converger.Agent.Outbound.{key}

pub data Output : Type 0 where
  answered : ℕ → String → Output
  refused : ℕ → String → Output
  resumed : String → List String → Output

-- #asks, the asks made so far, and what became of them.
pub record Asks : Type 0 where
  pub pending : Map String ℕ
  pub made : ℕ
  pub outputs : List Output

unfoldable pub put : Output → Asks → Asks
put o a = record a { outputs = a.outputs ++ o ∷ [] }

-- An entry leaves #asks, with its settlement.
unfoldable pub close : String → Output → Asks → Asks
unfolding put
close k o a = put o (record a { pending = Map.delete k a.pending })

-- #waitForAnswer, for the promise of the next number; `aborted` is the code of the signal's reason, where it
-- is aborted already.
unfoldable pub wait_for_answer : String → String → Option String → Asks → Asks
unfolding put
wait_for_answer conversation_id interrupt_id aborted a =
    let promise = a.made in
    let a1 = record a { made = suc promise } in
    elim aborted [
      | some code ↦ put (refused promise code) a1
      | none ↦ record a1 { pending = Map.set (key conversation_id interrupt_id) promise a.pending }
    ]

-- The callbacks of the signal and of the timer of an ask, with the code they refuse it by.
unfoldable pub give_up : String → String → ℕ → String → Asks → Asks
give_up conversation_id interrupt_id promise code a =
    let k = key conversation_id interrupt_id in
    let given_up = close k (refused promise code) a in
    if option_eq (Map.get k a.pending) (some promise) then given_up else a

-- A round of the loop of #onResume, with the ids that matched.
unfoldable pub answer : String → String → String → List String × Asks → List String × Asks
answer conversation_id id value (matched, a) =
    let k = key conversation_id id in
    elim (Map.get k a.pending) [
      | none ↦ (matched, a)
      | some promise ↦ (matched ++ id ∷ [], close k (answered promise value) a)
    ]

unfoldable pub answer_all :
    String → List (String × String) → List String × Asks → List String × Asks
answer_all conversation_id [] r = r
answer_all conversation_id ((id, value) ∷ answers) r =
    answer_all conversation_id answers (answer conversation_id id value r)

-- #onResume, on the answers as entries.
unfoldable pub on_resume : String → List (String × String) → Asks → Asks
unfolding put
on_resume conversation_id answers a =
    let (matched, a1) = answer_all conversation_id answers ([], a) in
    put (resumed conversation_id matched) a1

-- The loop at the end of a turn, over #asks: the asks that stay, and those that are refused.
unfoldable pub refuse_turn : String → Map String ℕ → Map String ℕ × List Output
refuse_turn prefix [] = ([], [])
refuse_turn prefix ((k, promise) ∷ m) =
    let (kept, outs) = refuse_turn prefix m in
    if starts_with k prefix
    then (kept, refused promise "aborted" ∷ outs)
    else ((k, promise) ∷ kept, outs)

-- `${conversationId}\u0000`
abbrev pub prefix_of : String → String
prefix_of conversation_id = key conversation_id ""

unfoldable pub turn_ended : String → Asks → Asks
turn_ended conversation_id a =
    let (kept, outs) = refuse_turn (prefix_of conversation_id) a.pending in
    record a { pending = kept; outputs = a.outputs ++ outs }

-- The loop of `stop`.
unfoldable pub refuse_all : Map String ℕ → List Output
refuse_all [] = []
refuse_all ((k, promise) ∷ m) = refused promise "closed" ∷ refuse_all m

unfoldable pub stop : Asks → Asks
stop a = record a { pending = []; outputs = a.outputs ++ refuse_all a.pending }
