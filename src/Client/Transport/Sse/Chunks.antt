-- ===== src/Client/Transport/Sse/Chunks.antt =====
-- sse.ts: the events of a stream, and how its bytes were cut into reads.
use converger.Prelude.{
  ℕ, zero, suc, ◌≤◌, ◌<◌, ◌≡◌, refl, ◌∙◌, sym, none, some, List, [], ◌∷◌, ◌++◌, length, append-nil,
  append_assoc, nat_eq, arith, Option-cases, inl, inr,
}
use converger.Client.Transport.Sse.Stream.{
  Text, newline_at, boundary_at, with_head, split_boundary, drain, feed, feed_all,
}

-- What follows a boundary grows with the text.
boundary-append : (s t r : Text) → boundary_at s ≡ some r → boundary_at (s ++ t) ≡ some (r ++ t)
unfolding boundary_at newline_at
boundary-append [] t r h = ground arith
boundary-append (a ∷ []) t r h = ground arith
boundary-append (a ∷ b ∷ []) [] r h = ground arith
boundary-append (a ∷ b ∷ []) (x ∷ t) r h = ground arith
boundary-append (a ∷ b ∷ c ∷ []) [] r h = ground arith
boundary-append (a ∷ b ∷ c ∷ []) (x ∷ t) r h = ground arith
boundary-append (a ∷ b ∷ c ∷ d ∷ s) t r h = ground arith

-- Four code units decide.
no_boundary_four :
    (c a b d : ℕ) (s t : Text)
    → boundary_at (c ∷ a ∷ b ∷ d ∷ s) ≡ none
    → boundary_at (c ∷ a ∷ b ∷ d ∷ (s ++ t)) ≡ none
unfolding boundary_at newline_at
no_boundary_four c a b d s t h = ground arith

-- Where a boundary comes later in a text, no boundary at its start waits for more.
no_boundary-append :
    (c : ℕ) (s t : Text) (p : Text × Text)
    → boundary_at (c ∷ s) ≡ none
    → split_boundary s ≡ some p
    → boundary_at ((c ∷ s) ++ t) ≡ none
unfolding boundary_at newline_at split_boundary
no_boundary-append c [] t p h k = ground arith
no_boundary-append c (a ∷ []) t p h k = ground arith
no_boundary-append c (a ∷ b ∷ []) t p h k = ground arith
no_boundary-append c (a ∷ b ∷ d ∷ s) t p h k = no_boundary_four c a b d s t h

pub split_boundary-here :
    (c : ℕ) (s r : Text) → boundary_at (c ∷ s) ≡ some r → split_boundary (c ∷ s) ≡ some ([], r)
unfolding split_boundary
split_boundary-here c s r h = ground arith

pub split_boundary-later :
    (c : ℕ) (s : Text)
    → boundary_at (c ∷ s) ≡ none
    → split_boundary (c ∷ s) ≡ with_head c (split_boundary s)
unfolding split_boundary
split_boundary-later c s h = ground arith

split_boundary-append :
    (s t a r : Text) → split_boundary s ≡ some (a, r) → split_boundary (s ++ t) ≡ some (a, r ++ t)
split_boundary-append [] t a r h = unfold split_boundary in ground arith
split_boundary-append (c ∷ s) t a r h = elim (Option-cases (boundary_at (c ∷ s))) [
  | inr (q, e) ↦ ground (
    arith,
    split_boundary-here c s q e,
    boundary-append (c ∷ s) t q e,
    split_boundary-here c (s ++ t) (q ++ t),
  )
  | inl e ↦ elim (Option-cases (split_boundary s)) [
    | inl k ↦ ground (arith, split_boundary-later c s e)
    | inr ((a', q), k) ↦ ground (
      arith,
      split_boundary-later c s e,
      no_boundary-append c s t (a', q) e k,
      split_boundary-later c (s ++ t),
      split_boundary-append s t a' q k,
    )
  ]
]

length-boundary_at : (s r : Text) → boundary_at s ≡ some r → length r < length s
unfolding boundary_at newline_at
length-boundary_at [] r h = ground arith
length-boundary_at (a ∷ []) r h = ground arith
length-boundary_at (a ∷ b ∷ []) r h = ground arith
length-boundary_at (a ∷ b ∷ c ∷ []) r h = ground arith
length-boundary_at (a ∷ b ∷ c ∷ d ∷ s) r h = ground arith

length-split_boundary : (s a r : Text) → split_boundary s ≡ some (a, r) → length r < length s
length-split_boundary [] a r h = unfold split_boundary in ground arith
length-split_boundary (c ∷ s) a r h = elim (Option-cases (boundary_at (c ∷ s))) [
  | inr (q, e) ↦ ground (arith, split_boundary-here c s q e, length-boundary_at (c ∷ s) q e)
  | inl e ↦ elim (Option-cases (split_boundary s)) [
    | inl k ↦ ground (arith, split_boundary-later c s e)
    | inr ((a', q), k) ↦ ground (arith, split_boundary-later c s e, length-split_boundary s a' q k)
  ]
]

pub split_boundary-nil : split_boundary [] ≡ none
unfolding split_boundary
split_boundary-nil = refl

drain-none : (f : ℕ) (s : Text) → split_boundary s ≡ none → drain f s ≡ ([], s)
unfolding drain
drain-none zero s h = refl
drain-none (suc f) s h = ground arith

drain-some :
    (f : ℕ) (s a r : Text)
    → split_boundary s ≡ some (a, r)
    → drain (suc f) s ≡ (a ∷ (drain f r).0, (drain f r).1)
unfolding drain
drain-some f s a r h = ground arith

-- With as much fuel as the text is long, the loop stops only where no boundary is left.
pub drain-left : (f : ℕ) (s : Text) → length s ≤ f → split_boundary (drain f s).1 ≡ none
drain-left zero [] h = unfold drain in split_boundary-nil
drain-left zero (c ∷ s) h = ground arith
drain-left (suc f) s h = elim (Option-cases (split_boundary s)) [
  | inl e ↦ ground (arith, drain-none (suc f) s e)
  | inr ((a, r), e) ↦
      ground (arith, drain-some f s a r e, length-split_boundary s a r e, drain-left f r)
]

-- More fuel than the text is long changes nothing.
drain-fuel : (f g : ℕ) (s : Text) → length s ≤ f → length s ≤ g → drain f s ≡ drain g s
drain-fuel zero zero s h k = refl
drain-fuel zero (suc g) [] h k =
    ground (arith, drain-none 0 [] split_boundary-nil, drain-none (suc g) [] split_boundary-nil)
drain-fuel (suc f) zero [] h k =
    ground (arith, drain-none 0 [] split_boundary-nil, drain-none (suc f) [] split_boundary-nil)
drain-fuel zero (suc g) (c ∷ s) h k = ground arith
drain-fuel (suc f) zero (c ∷ s) h k = ground arith
drain-fuel (suc f) (suc g) s h k = elim (Option-cases (split_boundary s)) [
  | inl e ↦ ground (arith, drain-none (suc f) s e, drain-none (suc g) s e)
  | inr ((a, r), e) ↦ ground (
    arith,
    drain-some f s a r e,
    drain-some g s a r e,
    length-split_boundary s a r e,
    drain-fuel f g r,
  )
]

-- Draining a text that grows is draining it, and then what was left with what came.
drain-append :
    (f g h : ℕ) (s t : Text)
    → length s ≤ f
    → length (s ++ t) ≤ g
    → length ((drain f s).1 ++ t) ≤ h
    → drain g (s ++ t)
      ≡ ((drain f s).0 ++ (drain h ((drain f s).1 ++ t)).0, (drain h ((drain f s).1 ++ t)).1)
drain-append zero g h [] t p q r =
    ground (arith, drain-none 0 [] split_boundary-nil, drain-fuel g h t)
drain-append zero g h (c ∷ s) t p q r = ground arith
drain-append (suc f) zero h [] t p q r =
    ground (arith, drain-none (suc f) [] split_boundary-nil, drain-fuel 0 h t)
drain-append (suc f) zero h (c ∷ s) t p q r = ground arith
drain-append (suc f) (suc g) h s t p q r = elim (Option-cases (split_boundary s)) [
  | inl e ↦ ground (arith, drain-none (suc f) s e, drain-fuel (suc g) h (s ++ t))
  | inr ((a, u), e) ↦ ground (
    arith,
    drain-some f s a u e,
    split_boundary-append s t a u e,
    drain-some g (s ++ t) a (u ++ t),
    length-split_boundary s a u e,
    length-split_boundary (s ++ t) a (u ++ t),
    drain-append f g h u t,
  )
]

feed_all-nil : (buffer : Text) → feed_all buffer [] ≡ ([], buffer)
unfolding feed_all
feed_all-nil buffer = refl

feed_all-cons :
    (buffer value : Text) (values : List Text)
    → feed_all buffer (value ∷ values) ≡ (
      (feed buffer value).0 ++ (feed_all (feed buffer value).1 values).0,
      (feed_all (feed buffer value).1 values).1,
    )
unfolding feed_all
feed_all-cons buffer value values = refl

abbrev pub concat : List Text → Text
concat [] = []
concat (value ∷ values) = value ++ concat values

feed-left : (buffer value : Text) → split_boundary (feed buffer value).1 ≡ none
unfolding feed
feed-left buffer value = drain-left (length (buffer ++ value)) (buffer ++ value) (omega arith)

pub feed-nil : (buffer : Text) → split_boundary buffer ≡ none → feed buffer [] ≡ ([], buffer)
unfolding feed
feed-nil buffer h = rw (append-nil buffer) (drain-none (length buffer) buffer h)

-- The first event of a text, and then those of what follows it.
pub feed-some :
    (s a r : Text) → split_boundary s ≡ some (a, r) → feed [] s ≡ (a ∷ (feed [] r).0, (feed [] r).1)
unfolding feed
feed-some [] a r h = ground (arith, split_boundary-nil)
feed-some (c ∷ s) a r h = ground (
  arith,
  drain-some (length s) (c ∷ s) a r h,
  length-split_boundary (c ∷ s) a r h,
  drain-fuel (length s) (length r) r,
)

feed-append :
    (buffer s t : Text)
    → feed buffer (s ++ t)
      ≡ ((feed buffer s).0 ++ (feed (feed buffer s).1 t).0, (feed (feed buffer s).1 t).1)
unfolding feed
feed-append buffer s t =
    let l : Text = (drain (length (buffer ++ s)) (buffer ++ s)).1 in
    rw (sym (append_assoc buffer s t)) (
      drain-append (length (buffer ++ s)) (length ((buffer ++ s) ++ t)) (length (l ++ t))
        (buffer ++ s) t (omega arith) (omega arith) (omega arith))

-- However the bytes of a stream were cut into reads, the events and the buffer that is left are those of one
-- read of all of them, where the buffer at the start held no boundary.
pub feed_all-concat :
    (buffer : Text) (values : List Text)
    → split_boundary buffer ≡ none
    → feed_all buffer values ≡ feed buffer (concat values)
feed_all-concat buffer [] h = feed_all-nil buffer ∙ sym (feed-nil buffer h)
feed_all-concat buffer (value ∷ values) h = ground (
  arith,
  feed_all-cons buffer value values,
  feed-append buffer value (concat values),
  feed_all-concat (feed buffer value).1 values (feed-left buffer value),
)
