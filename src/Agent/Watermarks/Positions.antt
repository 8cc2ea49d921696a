-- ===== src/Agent/Watermarks/Positions.antt =====
-- watermarks.ts: what one position counts as seen.
use converger.Prelude.{
  ℕ, ◌-◌, ◌≡◌, refl, true, List, [], ◌∷◌, ◌==◌, nat_eq, if◌then◌else◌, length, ltb, take, arith,
}
use converger.Js.Set
use converger.Agent.Watermarks.{Position, window, covers, sort, forget, forget_all, note_seq}

covers-forget : (n old : ℕ) (p : Position) → covers n p ≡ true → covers n (forget old p) ≡ true
unfolding covers forget
covers-forget n old p h = ground (arith, Set.has-delete old n p.seen)

covers-forget_all :
    (n : ℕ) (olds : List ℕ) (p : Position) → covers n p ≡ true → covers n (forget_all olds p) ≡ true
unfolding forget_all
covers-forget_all n [] p h = h
covers-forget_all n (old ∷ olds) p h =
    covers-forget_all n olds (forget old p) (covers-forget n old p h)

high-forget_all : (olds : List ℕ) (p : Position) → (forget_all olds p).high ≡ p.high
unfolding forget_all forget
high-forget_all [] p = refl
high-forget_all (old ∷ olds) p = high-forget_all olds (forget old p)

module _ (seq : ℕ) (p : Position) where
  abbrev noted : Position
  noted = record p { seen = Set.add seq p.seen; high = if ltb p.high seq then seq else p.high }

  abbrev oldest : List ℕ
  oldest = take (length noted.seen - window) (sort noted.seen)

  -- A noted seq is covered, and so is all that was.
  pub covers-note_seq :
      (n : ℕ) → (if seq == n then true else covers n p) ≡ true → covers n (note_seq seq p) ≡ true
  unfolding note_seq covers
  covers-note_seq n h = ground (arith, covers-forget_all n oldest noted, Set.has-add seq n p.seen)

  pub high-note_seq : (note_seq seq p).high ≡ (if ltb p.high seq then seq else p.high)
  unfolding note_seq
  high-note_seq = ground (arith, high-forget_all oldest noted)
