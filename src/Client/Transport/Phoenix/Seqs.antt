-- ===== src/Client/Transport/Phoenix/Seqs.antt =====
-- phoenix.ts: the seqs that an activity set is handed on with.
use converger.Prelude.{
  ℕ, suc, ◌+◌, ◌≡◌, refl, ◌∙◌, sym, ap, false, some, List, [], ◌∷◌, ◌++◌, arith, length, map,
  append-nil, append_assoc,
}
use converger.Client.Frames.{JsNumber}
use converger.Client.Transport.Phoenix.{
  Effect, on_activity, PhoenixTransport, emit, hand_on, seq_at, on_activity_set,
}

seq_at-after :
    (before size index : ℕ)
    → seq_at (before + size) size index ≡ JsNumber.nat (suc (before + index))
unfolding seq_at
seq_at-after before size index = ground arith

add_suc : (a b : ℕ) → a + suc b ≡ suc (a + b)
add_suc a b = omega arith

add_zero : (a : ℕ) → a + 0 ≡ a
add_zero a = omega arith

module _ {A : Type 0} where
  -- A contiguous set as the server holds it: the activities after a seq, each with its own.
  abbrev pub numbered : ℕ → List A → List (A × ℕ)
  numbered before [] = []
  numbered before (a ∷ as') = (a, suc before) ∷ numbered (suc before) as'

  abbrev pub activity_of : A × ℕ → Effect A
  activity_of (a, seq) = on_activity a (JsNumber.nat seq)

  hand_on-numbered :
      (before size index : ℕ) (as' : List A) (t : PhoenixTransport A)
      → (hand_on (before + size) size index as' t).effects
        ≡ t.effects ++ map activity_of (numbered (before + index) as')
  unfolding hand_on emit
  hand_on-numbered before size index [] t = sym (append-nil t.effects)
  hand_on-numbered before size index (a ∷ as') t = ground (
    arith,
    seq_at-after before size index,
    hand_on-numbered before size (suc index) as'
        (emit (on_activity a (seq_at (before + size) size index)) t),
    append_assoc t.effects (activity_of (a, suc (before + index)) ∷ [])
        (map activity_of (numbered (suc (before + index)) as')),
    add_suc before index,
  )

  -- A set that holds the activities after a seq, and as its watermark the seq of its last, is handed on with each
  -- activity's own seq, in order, and the transport's watermark is the set's, where no more are to come.
  pub activity_set_seqs :
      (before : ℕ) (a : A) (as' : List A) (t : PhoenixTransport A)
      → ((on_activity_set (a ∷ as') (some (before + length (a ∷ as'))) false t).effects
          ≡ t.effects ++ map activity_of (numbered before (a ∷ as')))
        × ((on_activity_set (a ∷ as') (some (before + length (a ∷ as'))) false t).watermark
            ≡ some (before + length (a ∷ as')))
  unfolding on_activity_set
  activity_set_seqs before a as' t =
      let numbers =
        ap (λ (n : ℕ). t.effects ++ map activity_of (numbered n (a ∷ as'))) (add_zero before) in
      (hand_on-numbered before (length (a ∷ as')) 0 (a ∷ as') t ∙ numbers, refl)
