-- ===== src/Client/Receive/Contiguous.antt =====
-- conversation.ts: the watermark after a list of seqs.
use converger.Prelude.{
  ℕ, suc, not, ◌&&◌, ◌+◌, ◌≤◌, ◌≡◌, refl, true, false, List, [], ◌∷◌, arith, leb, if◌then◌else◌,
  nat_eq,
}
use converger.Js.Set
use converger.Client.Receive.Watermark.{Receive, new_receive, mark_seen, is_duplicate}
use converger.Client.Receive.Known.{IsTight, mark_seen-IsTight, duplicate-mark_seen}

-- Seqs recorded one after the other.
pub mark_all : List ℕ → Receive → Receive
mark_all [] r = r
mark_all (n ∷ ns) r = mark_all ns (mark_seen n r).0

mark_all-IsTight : (ns : List ℕ) (r : Receive) → IsTight r → IsTight (mark_all ns r)
unfolding mark_all
mark_all-IsTight [] r h = h
mark_all-IsTight (n ∷ ns) r h = mark_all-IsTight ns (mark_seen n r).0 (mark_seen-IsTight n r h)

duplicate-mark_all :
    (n : ℕ) (ns : List ℕ) (r : Receive)
    → is_duplicate n (mark_all ns r) ≡ (if Set.has n ns then true else is_duplicate n r)
unfolding mark_all Set.has
duplicate-mark_all n [] r = refl
duplicate-mark_all n (m ∷ ns) r =
    ground (arith, duplicate-mark_all n ns (mark_seen m r).0, duplicate-mark_seen m n r)

new_receive-IsTight : IsTight new_receive
unfolding Set.has
new_receive-IsTight = record { trimmed = record { above = λ n le. refl }; next_missing = refl }

duplicate-new_receive : (n : ℕ) → is_duplicate n new_receive ≡ leb n 0
unfolding is_duplicate Set.has
duplicate-new_receive n = ground arith

duplicate_next : (r : Receive) → IsTight r → is_duplicate (r.watermark + 1) r ≡ false
unfolding is_duplicate
duplicate_next r h = ground arith

duplicate_below : (n : ℕ) (r : Receive) → n ≤ r.watermark → is_duplicate n r ≡ true
unfolding is_duplicate
duplicate_below n r h = ground arith

-- From a new session, after the seqs of a list in any order, repeated or not: a positive seq up to the
-- watermark is in the list, the seq after the watermark is not, and a positive seq counts as a
-- duplicate exactly when it is in the list.
pub watermark_contiguous :
    (ns : List ℕ) (n : ℕ)
    → let r = mark_all ns new_receive in
      ((leb (suc n) r.watermark && not (Set.has (suc n) ns)) ≡ false)
      × (Set.has (r.watermark + 1) ns ≡ false)
      × (is_duplicate (suc n) r ≡ Set.has (suc n) ns)
watermark_contiguous ns n =
    let r = mark_all ns new_receive in
    (
      ground (
        arith,
        duplicate-mark_all (suc n) ns new_receive,
        duplicate-new_receive (suc n),
        duplicate_below (suc n) r,
      ),
      ground (
        arith,
        duplicate-mark_all (r.watermark + 1) ns new_receive,
        duplicate_next r (mark_all-IsTight ns new_receive new_receive-IsTight),
      ),
      ground (arith, duplicate-mark_all (suc n) ns new_receive, duplicate-new_receive (suc n)),
    )
