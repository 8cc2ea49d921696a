-- ===== src/Agent/Watermarks/Recording.antt =====
-- watermarks.ts: `record`, its answer and what it leaves.
use converger.Prelude.{
  ℕ, suc, ◌≤◌, ◌<◌, ◌≡◌, refl, ap, sym, Bool, true, false, not, Option, none, some, String, [], ◌∷◌,
  nat_eq, string_eq, same_refl, if◌then◌else◌, length, arith, max,
}
use converger.Js.Set
use converger.Js.Map
use converger.Js.Map.{Map}
use converger.Agent.Watermarks.{
  Position, WatermarkTracker, covers, note_seq, trim, touch_position, get, seen, record_seq,
  position_of, position_or_new,
}
use converger.Agent.Watermarks.Positions.{covers-note_seq, high-note_seq}

-- Trimming to a capacity of at least one keeps the entry that was set last.
get-trim :
    (capacity : ℕ) (id : String) (p : Position) (m : Map String Position)
    → 0 < capacity
    → Map.has id m ≡ false
    → Map.get id (trim capacity (Map.set id p m)) ≡ some p
unfolding trim Map.set Map.get Map.has
get-trim capacity id p [] pos h = ground (arith, same_refl id)
get-trim capacity id p ((j, q) ∷ m) pos h =
    ground (arith, get-trim capacity id p m pos, Map.get-set id id p m, same_refl id)

length-trim : (capacity : ℕ) (m : Map String Position) → length (trim capacity m) ≤ capacity
unfolding trim
length-trim capacity [] = omega arith
length-trim capacity (e ∷ m) = ground (arith, length-trim capacity m)

get-touch_position :
    (id : String) (p : Position) (t : WatermarkTracker)
    → 0 < t.capacity
    → Map.get id (touch_position id p t).positions ≡ some p
unfolding touch_position
get-touch_position id p t pos =
    get-trim t.capacity id p (Map.delete id t.positions) pos
      (ground (arith, Map.has-delete id id t.positions, same_refl id))

-- What recording a seq leaves at its conversation.
abbrev recorded : ℕ → Position → Position
recorded seq p = if not (covers seq p) then note_seq seq p else p

get-record_seq :
    (id : String) (n : ℕ) (t : WatermarkTracker)
    → 0 < t.capacity
    → Map.get id (record_seq id (suc n) t).0.positions ≡ some (recorded (suc n) (position_of id t))
unfolding record_seq
get-record_seq id n t pos = get-touch_position id (recorded (suc n) (position_of id t)) t pos

covers-recorded :
    (n : ℕ) (p : Position)
    → (covers (suc n) (recorded (suc n) p) ≡ true)
      × ((k : ℕ) → covers k p ≡ true → covers k (recorded (suc n) p) ≡ true)
      × ((recorded (suc n) p).high ≡ (if covers (suc n) p then p.high else max p.high (suc n)))
covers-recorded n p = (
  ground (arith, covers-note_seq (suc n) p (suc n)),
  λ k h. ground (arith, covers-note_seq (suc n) p k),
  ground (arith, high-note_seq (suc n) p, max),
)

abbrev seen_at : ℕ → Option Position → Bool
seen_at k o = elim o [ none ↦ false | some p ↦ covers k p ]

abbrev high_at : Option Position → ℕ
high_at o = elim o [ none ↦ 0 | some p ↦ p.high ]

seen_at-position_or_new :
    (n : ℕ) (o : Option Position) → seen_at (suc n) o ≡ covers (suc n) (position_or_new o)
unfolding covers Set.has
seen_at-position_or_new n none = ground arith
seen_at-position_or_new n (some p) = refl

high_at-position_or_new : (o : Option Position) → high_at o ≡ (position_or_new o).high
high_at-position_or_new none = refl
high_at-position_or_new (some p) = refl

covers-of-seen_at :
    (k : ℕ) (o : Option Position) → seen_at k o ≡ true → covers k (position_or_new o) ≡ true
covers-of-seen_at k none h = cc
covers-of-seen_at k (some p) h = h

record_seq_answer :
    (id : String) (n : ℕ) (t : WatermarkTracker)
    → (record_seq id (suc n) t).1 ≡ not (seen id (suc n) t)
unfolding record_seq seen
record_seq_answer id n t = ap not (sym (seen_at-position_or_new n (Map.get id t.positions)))

kept_seen :
    (id : String) (n k : ℕ) (t : WatermarkTracker)
    → 0 < t.capacity
    → seen id k t ≡ true
    → seen id k (record_seq id (suc n) t).0 ≡ true
unfolding seen
kept_seen id n k t pos h =
    rw (get-record_seq id n t pos, seen)
      ((covers-recorded n (position_of id t)).1 k (covers-of-seen_at k (Map.get id t.positions) h))

-- With a capacity of at least one, recording a positive seq answers exactly whether the seq was not
-- seen. Afterwards it is seen, so is every seq of the conversation that was, and the resume position
-- is the highest of the old one and the seq, if fresh.
pub record_seq_lem :
    (id : String) (n k : ℕ) (t : WatermarkTracker)
    → 0 < t.capacity
    → ((record_seq id (suc n) t).1 ≡ not (seen id (suc n) t))
      × (seen id (suc n) (record_seq id (suc n) t).0 ≡ true)
      × ((if seen id k t then seen id k (record_seq id (suc n) t).0 else true) ≡ true)
      × (get id (record_seq id (suc n) t).0
          ≡ (if seen id (suc n) t then get id t else max (get id t) (suc n)))
unfolding get seen
record_seq_lem id n k t pos =
    let o = Map.get id t.positions in
    let (covered, kept, high) = covers-recorded n (position_of id t) in
    (
      record_seq_answer id n t,
      rw (get-record_seq id n t pos, seen) covered,
      ground (arith, kept_seen id n k t pos),
      rw (get-record_seq id n t pos, get)
          (ground (arith, high, high_at-position_or_new o, seen_at-position_or_new n o)),
    )

-- After recording a positive seq, the tracker follows no more conversations than its capacity.
pub record_seq_capacity :
    (id : String) (n : ℕ) (t : WatermarkTracker)
    → length (record_seq id (suc n) t).0.positions ≤ t.capacity
unfolding record_seq touch_position
record_seq_capacity id n t =
    length-trim t.capacity
      (Map.set id (recorded (suc n) (position_of id t)) (Map.delete id t.positions))
