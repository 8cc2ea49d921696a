-- ===== src/Agent/Turns/Inbound.antt =====
-- agent.ts: `#history` and the frames of a conversation that are no acks, errors, resumes or aborts, which the rest of
-- #onEnveloped collects for a history, drops, or dispatches as turns.
pub mod Repeated
use converger.Prelude.{
  ℕ, zero, suc, ◌-◌, max, Bool, true, false, ◌&&◌, ◌||◌, Option, none, some, String, List, [], ◌∷◌,
  ◌++◌, string_eq, nat_eq, ◌==◌, if◌then◌else◌, length, drop, leb,
}
use converger.Js.Map
use converger.Js.Map.{Map}
use converger.Agent.Watermarks
use converger.Agent.Watermarks.{WatermarkTracker}
use converger.Agent.Turns.Lanes.{Turns, dispatch}

-- What is read of a frame: its seq, whether `isMessageFrame` holds, its `from`, and its number among all frames.
pub record Frame : Type 0 where
  pub seq : Option ℕ
  pub is_message : Bool
  pub from : String
  pub number : ℕ

-- HistoryCollector
pub record Collector : Type 0 where
  pub until : ℕ
  pub frames : List Frame

pub data Output : Type 0 where
  sync : String → ℕ → Output
  history : String → List Frame → Output

pub record Inbound : Type 0 where
  pub turns : Turns
  pub tracker : WatermarkTracker
  pub histories : Map String Collector
  pub include_bot_turns : Bool
  pub outputs : List Output

unfoldable pub put : Output → Inbound → Inbound
put o s = record s { outputs = s.outputs ++ o ∷ [] }

abbrev pub seq_or_zero : Frame → ℕ
seq_or_zero f = elim f.seq [ none ↦ 0 | some n ↦ n ]

unfoldable pub insert : Frame → List Frame → List Frame
insert f [] = f ∷ []
insert f (g ∷ gs) =
    let rest = insert f gs in if leb (seq_or_zero f) (seq_or_zero g) then f ∷ g ∷ gs else g ∷ rest

-- `.sort((a, b) => (a.seq ?? 0) - (b.seq ?? 0))`, which is stable.
unfoldable pub sort : List Frame → List Frame
unfolding insert
sort [] = []
sort (f ∷ fs) = insert f (sort fs)

-- `frames.slice(-limit)`, where -0 is 0.
unfoldable pub slice : Option ℕ → List Frame → List Frame
slice none fs = fs
slice (some zero) fs = fs
slice (some (suc n)) fs = drop (length fs - suc n) fs

-- A collector's `done`, by the timer, a stop, a failed sync or its last frame.
unfoldable pub finish : String → Collector → Inbound → Inbound
unfolding put
finish id c s =
    put (history id (sort c.frames)) (record s { histories = Map.delete id s.histories })

-- #history, where none of the conversation is being collected.
unfoldable pub ask_history : String → Option ℕ → Inbound → Inbound
unfolding put
ask_history id since s =
    let until = Watermarks.get id s.tracker in
    let from : ℕ = elim since [ none ↦ 0 | some n ↦ n ] in
    let asked =
      put (sync id from)
        (record s { histories = Map.set id (record { until = until; frames = [] }) s.histories }) in
    if until == 0 then put (history id []) s else asked

-- The end of #onEnveloped.
unfoldable pub dispatch_message : String → Frame → Inbound → Inbound
dispatch_message id f s =
    if f.is_message && ((f.from == "user") || ((f.from == "bot") && s.include_bot_turns))
    then record s { turns = dispatch id f.number s.turns }
    else s

-- A frame with a seq that a history collects.
unfoldable pub collect : String → Frame → ℕ → Collector → Inbound → Inbound
collect id f seq c s =
    let c1 = record c { frames = c.frames ++ f ∷ [] } in
    let s1 = record s {
      histories = Map.set id c1 s.histories;
      tracker = (Watermarks.record_seq id seq s.tracker).0;
    } in
    if leb c.until seq then finish id c1 s1 else s1

-- A frame with a seq that no history collects.
unfoldable pub deliver : String → Frame → ℕ → Inbound → Inbound
deliver id f seq s =
    let (tracker, fresh) = Watermarks.record_seq id seq s.tracker in
    let s1 = record s { tracker = tracker } in if fresh then dispatch_message id f s1 else s1

-- #onEnveloped, from its switch on, on such a frame.
unfoldable pub on_frame : String → Frame → Inbound → Inbound
on_frame id f s = elim f.seq [
  | none ↦ dispatch_message id f s
  | some seq ↦ elim (Map.get id s.histories) [
    | none ↦ deliver id f seq s
    | some c ↦ if leb seq c.until then collect id f seq c s else deliver id f seq s
  ]
]

unfoldable pub on_frames : String → List Frame → Inbound → Inbound
on_frames id [] s = s
on_frames id (f ∷ fs) s = on_frames id fs (on_frame id f s)
