-- ===== src/Client/Receive/Known.antt =====
-- conversation.ts: which seqs are known after `#markSeen`.
use converger.Prelude.{
  ℕ, zero, suc, ◌+◌, ◌≤◌, ◌<◌, ◌≡◌, refl, true, false, arith, length, leb, ltb, if◌then◌else◌,
  nat_eq, ◌==◌, Bool-cases, inl, inr,
}
use converger.Js.Set
use converger.Client.Receive.Watermark.{Receive, advance_once, advance, mark_seen, is_duplicate}

-- The seqs in `seen` lie above the watermark.
pub record IsTrimmed (r : Receive) : Type 0 where
  pub above : (n : ℕ) → n ≤ r.watermark → Set.has n r.seen ≡ false

advance_once-IsTrimmed : (r : Receive) → IsTrimmed r → IsTrimmed (advance_once r)
advance_once-IsTrimmed r h = record {
  above = λ n le. ground (arith, h.above n, Set.has-delete (r.watermark + 1) n r.seen);
}

pub advance-IsTrimmed : (fuel : ℕ) (r : Receive) → IsTrimmed r → IsTrimmed (advance fuel r)
unfolding advance
advance-IsTrimmed zero r h = h
advance-IsTrimmed (suc fuel) r h = elim (Bool-cases (Set.has (r.watermark + 1) r.seen)) [
  | inl e ↦ rw e (advance-IsTrimmed fuel (advance_once r) (advance_once-IsTrimmed r h))
  | inr e ↦ rw e h
]

-- Besides, the seq next to the watermark was not seen: the watermark is as high as it can be.
pub record IsTight (r : Receive) : Type 0 where
  pub trimmed : IsTrimmed r
  pub next_missing : Set.has (r.watermark + 1) r.seen ≡ false

-- A round moves the next seq from the set into the watermark.
duplicate-advance_once :
    (n : ℕ) (r : Receive)
    → Set.has (r.watermark + 1) r.seen ≡ true
    → is_duplicate n (advance_once r) ≡ is_duplicate n r
unfolding is_duplicate
duplicate-advance_once n r h = ground (arith, Set.has-delete (r.watermark + 1) n r.seen)

duplicate-advance : (n fuel : ℕ) (r : Receive) → is_duplicate n (advance fuel r) ≡ is_duplicate n r
unfolding advance
duplicate-advance n zero r = refl
duplicate-advance n (suc fuel) r =
    ground (arith, duplicate-advance n fuel (advance_once r), duplicate-advance_once n r)

-- With as much fuel as `seen` has members the loop ends by its test.
advance_done :
    (fuel : ℕ) (r : Receive)
    → length r.seen ≤ fuel
    → Set.has ((advance fuel r).watermark + 1) (advance fuel r).seen ≡ false
unfolding advance
advance_done zero r h = ground (arith, Set.length-delete-has (r.watermark + 1) r.seen)
advance_done (suc fuel) r h =
    ground
      (arith, advance_done fuel (advance_once r), Set.length-delete-has (r.watermark + 1) r.seen)

watermark-advance : (fuel : ℕ) (r : Receive) → r.watermark ≤ (advance fuel r).watermark
unfolding advance
watermark-advance zero r = omega arith
watermark-advance (suc fuel) r = ground (arith, watermark-advance fuel (advance_once r))

advance_moved :
    (fuel : ℕ) (r : Receive)
    → length r.seen ≤ fuel
    → Set.has (r.watermark + 1) r.seen ≡ ltb r.watermark (advance fuel r).watermark
unfolding advance
advance_moved zero r h = ground (arith, Set.length-delete-has (r.watermark + 1) r.seen)
advance_moved (suc fuel) r h = ground (arith, watermark-advance fuel (advance_once r))

add-IsTrimmed :
    (seq : ℕ) (r : Receive)
    → r.watermark < seq
    → IsTrimmed r
    → IsTrimmed (record r { seen = Set.add seq r.seen })
add-IsTrimmed seq r lt h = record {
  above = λ n le. ground (arith, h.above n, Set.has-add seq n r.seen);
}

-- Recording a seq keeps the watermark the highest contiguous seq.
pub mark_seen-IsTight : (seq : ℕ) (r : Receive) → IsTight r → IsTight (mark_seen seq r).0
unfolding mark_seen
mark_seen-IsTight seq r h = elim (Bool-cases (leb seq r.watermark)) [
  | inl e ↦ rw (e, mark_seen) h
  | inr e ↦
      rw (e, mark_seen)
        (let r' = record r { seen = Set.add seq r.seen } in
          record {
            trimmed =
                advance-IsTrimmed (length r'.seen) r'
                  (add-IsTrimmed seq r (ground arith) h.trimmed);
            next_missing = advance_done (length r'.seen) r' (omega arith);
          })
]

-- Recording a seq makes it known, and changes nothing for any other.
pub duplicate-mark_seen :
    (seq n : ℕ) (r : Receive)
    → is_duplicate n (mark_seen seq r).0 ≡ (if seq == n then true else is_duplicate n r)
unfolding mark_seen is_duplicate
duplicate-mark_seen seq n r =
    let r' = record r { seen = Set.add seq r.seen } in
    ground (arith, duplicate-advance n (length r'.seen) r', Set.has-add seq n r.seen)

pub watermark-mark_seen : (seq : ℕ) (r : Receive) → r.watermark ≤ (mark_seen seq r).0.watermark
unfolding mark_seen
watermark-mark_seen seq r =
    let r' = record r { seen = Set.add seq r.seen } in
    ground (arith, watermark-advance (length r'.seen) r')

-- The state is written exactly when the watermark has moved.
pub saved_mark_seen :
    (seq : ℕ) (r : Receive)
    → IsTight r
    → (mark_seen seq r).1 ≡ ltb r.watermark (mark_seen seq r).0.watermark
unfolding mark_seen
saved_mark_seen seq r h =
    let r' = record r { seen = Set.add seq r.seen } in
    ground (arith, advance_moved (length r'.seen) r')
