-- ===== src/Agent/Turns/Tests.antt =====
-- Turns and asks on concrete inputs.
use converger.Prelude.{
  ◌+◌, ◌≤◌, ◌≡◌, refl, true, none, List, [], ◌∷◌, ◌++◌, string_eq, if◌then◌else◌, ℕ, arith, some,
  false,
}
use text.Mathlib.Text.{starts_with}
use converger.Js.Map
use converger.Agent.Outbound.{key}
use converger.Agent.Turns.Asks.{Asks, turn_ended, prefix_of}
use converger.Agent.Turns.Asks.Settled
use converger.Agent.Turns.Asks.Settled.{
  settlements, holders, new_asks, ask_settled_once, turn_ended_lem,
}
use converger.Agent.Turns.Lanes
use converger.Agent.Turns.Lanes.{Step, dispatched, advanced, returned, steps}
use converger.Agent.Turns.Lanes.Slots.{waits, slots}
use converger.Agent.Turns.Lanes.Bounded.{handlers, new_turns, handlers_bounded, waits_only_if_full}
use converger.Agent.Turns.Lanes.Taking.{taken, pending}
use converger.Agent.Turns.Lanes.Order.{turns_in_order}
use converger.Agent.Turns.Inbound.{Inbound, Frame, on_frame, on_frames, slice}
use converger.Agent.Turns.Inbound.Repeated.{repeated_frame_dropped}

abbrev asking : List Settled.Step
asking =
    Settled.asked "c" "i" none ∷ Settled.resume "c" (("i", "yes") ∷ []) ∷ Settled.ended "c" ∷ []

ask_settled_once_example : settlements 0 (Settled.steps asking new_asks).outputs ≤ 1
ask_settled_once_example = ask_settled_once 0 asking

abbrev two_asks : Asks
two_asks = record { pending = (key "c" "i", 0) ∷ (key "d" "i", 1) ∷ []; made = 2; outputs = [] }

turn_ended_lem_example :
    (Map.get (key "d" "i") (turn_ended "c" two_asks).pending ≡ (
      if starts_with (key "d" "i") (prefix_of "c")
      then none
      else Map.get (key "d" "i") two_asks.pending))
    × (holders 1 (turn_ended "c" two_asks).pending + settlements 1 (turn_ended "c" two_asks).outputs
        ≡ 1)
turn_ended_lem_example = turn_ended_lem "c" (key "d" "i") 1 two_asks

-- Two conversations and one slot: the second waits.
abbrev contended : List Step
contended =
    dispatched "c" 1
    ∷ dispatched "d" 2
    ∷ advanced "c" returned
    ∷ advanced "d" returned
    ∷ advanced "c" returned
    ∷ []

handlers_bounded_example : handlers (steps contended (new_turns 1)).lanes ≤ 1
handlers_bounded_example = handlers_bounded 1 contended

second_waits : waits (Map.get "d" (steps contended (new_turns 1)).lanes) ≡ true
unfolding Lanes.steps Lanes.step Lanes.dispatch Lanes.set_lane Lanes.advance Lanes.advance_lane
    Lanes.begin_turn Lanes.acquire Lanes.call_handler Lanes.put Map.get Map.set
second_waits = refl

waits_only_if_full_example : slots (steps contended (new_turns 1)).lanes ≡ 1
waits_only_if_full_example = waits_only_if_full 1 contended "d" second_waits

turns_in_order_example :
    taken "c" (steps contended (new_turns 1)).outputs
      ++ pending (Map.get "c" (steps contended (new_turns 1)).lanes)
    ≡ 1 ∷ []
turns_in_order_example = turns_in_order 1 contended "c"

abbrev listening : Inbound
listening = record {
  turns = new_turns 1;
  tracker = record { capacity = 2; positions = [] };
  histories = [];
  include_bot_turns = false;
  outputs = [];
}

abbrev user_frame : ℕ → Frame
user_frame n = record { seq = some n; is_message = true; from = "user"; number = n }

no_history : Map.get "c" listening.histories ≡ none
unfolding Map.get
no_history = refl

repeated_frame_dropped_example :
    (on_frame "c"
      (user_frame 3)
      (on_frames "c" (user_frame 4 ∷ []) (on_frame "c" (user_frame 3) listening))).turns
    ≡ (on_frames "c" (user_frame 4 ∷ []) (on_frame "c" (user_frame 3) listening)).turns
repeated_frame_dropped_example =
    repeated_frame_dropped "c" (user_frame 3) 2 (user_frame 4 ∷ []) listening refl (omega arith)
      no_history

-- With the limit 0 all frames come back.
slice_zero : slice (some 0) (user_frame 3 ∷ user_frame 4 ∷ []) ≡ user_frame 3 ∷ user_frame 4 ∷ []
unfolding slice
slice_zero = refl
