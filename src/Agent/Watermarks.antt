-- ===== src/Agent/Watermarks.antt =====
-- packages/agent-ts/src/watermarks.ts: `WatermarkTracker`, the resume position of each conversation
-- and a window of the seqs that were seen.
pub mod Positions
pub mod Recording
use converger.Prelude.{
  ℕ, zero, suc, ◌+◌, ◌-◌, ◌≤◌, max, Bool, true, false, not, ◌&&◌, ◌||◌, Option, none, some, String,
  List, [], ◌∷◌, ◌++◌, StrictEq, ◌==◌, string_eq, nat_eq, if◌then◌else◌, length, leb, ltb, take,
}
use converger.Js.Set
use converger.Js.Set.{Set}
use converger.Js.Map
use converger.Js.Map.{Map}

pub record Position : Type 0 where
  pub high : ℕ
  pub floor : ℕ
  pub seen : Set ℕ

abbrev pub window : ℕ
window = 512

-- The tracker, its conversations the least recently active first.
pub record WatermarkTracker : Type 0 where
  pub capacity : ℕ
  pub positions : Map String Position

abbrev pub new_position : Position
new_position = record { high = 0; floor = 0; seen = [] }

-- `seq <= position.floor || position.seen.has(seq)`
unfoldable pub covers : ℕ → Position → Bool
covers seq p = if leb seq p.floor then true else Set.has seq p.seen

insert : ℕ → List ℕ → List ℕ
insert a [] = a ∷ []
insert a (b ∷ bs) = let rest = insert a bs in if leb a b then a ∷ b ∷ bs else b ∷ rest

-- `[...seen].sort((a, b) => a - b)`
unfoldable pub sort : List ℕ → List ℕ
unfolding insert
sort [] = []
sort (a ∷ as') = insert a (sort as')

-- One round of the loop that forgets the oldest seqs.
unfoldable pub forget : ℕ → Position → Position
forget old p = record p {
  seen = Set.delete old p.seen;
  floor = if ltb p.floor old then old else p.floor;
}

unfoldable pub forget_all : List ℕ → Position → Position
forget_all [] p = p
forget_all (old ∷ olds) p = forget_all olds (forget old p)

-- The body of `record` for a seq that is fresh.
unfoldable pub note_seq : ℕ → Position → Position
note_seq seq p =
    let p1 = record p {
      seen = Set.add seq p.seen;
      high = if ltb p.high seq then seq else p.high;
    } in
    if ltb window (length p1.seen)
    then forget_all (take (length p1.seen - window) (sort p1.seen)) p1
    else p1

-- The loop of #touch: the least recently active are forgotten.
unfoldable pub trim : ℕ → Map String Position → Map String Position
trim capacity [] = []
trim capacity (e ∷ m) =
    let rest = trim capacity m in if ltb capacity (length (e ∷ m)) then rest else e ∷ m

-- #touch
unfoldable pub touch_position : String → Position → WatermarkTracker → WatermarkTracker
touch_position id p t = record t {
  positions = trim t.capacity (Map.set id p (Map.delete id t.positions));
}

abbrev pub position_or_new : Option Position → Position
position_or_new none = new_position
position_or_new (some p) = p

-- The position that `record` starts from.
abbrev pub position_of : String → WatermarkTracker → Position
position_of id t = position_or_new (Map.get id t.positions)

-- get
unfoldable pub get : String → WatermarkTracker → ℕ
get id t = elim (Map.get id t.positions) [ none ↦ 0 | some p ↦ p.high ]

-- seen
unfoldable pub seen : String → ℕ → WatermarkTracker → Bool
seen id seq t = elim (Map.get id t.positions) [ none ↦ false | some p ↦ covers seq p ]

-- record, on a seq that is a natural number; the answer is whether it is fresh.
unfoldable pub record_seq : String → ℕ → WatermarkTracker → WatermarkTracker × Bool
record_seq id zero t = (t, true)
record_seq id (suc n) t =
    let seq = suc n in
    let p = position_of id t in
    let fresh = not (covers seq p) in
    (touch_position id (if fresh then note_seq seq p else p) t, fresh)

-- touch
unfoldable pub touch : String → WatermarkTracker → WatermarkTracker
touch id t = elim (Map.get id t.positions) [ none ↦ t | some p ↦ touch_position id p t ]

-- snapshot
unfoldable pub snapshot : Map String Position → Map String ℕ
snapshot [] = []
snapshot ((id, p) ∷ m) = (id, p.high) ∷ snapshot m

touch_initial : List (String × ℕ) → WatermarkTracker → WatermarkTracker
touch_initial [] t = t
touch_initial ((id, seq) ∷ m) t =
    touch_initial m (touch_position id (record { high = seq; floor = seq; seen = [] }) t)

-- constructor, on initial seqs that are natural numbers.
unfoldable pub new_tracker : ℕ → List (String × ℕ) → WatermarkTracker
unfolding touch_initial
new_tracker capacity initial =
    touch_initial initial (record { capacity = max 1 capacity; positions = [] })
