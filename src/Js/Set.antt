-- ===== src/Js/Set.antt =====
-- JavaScript's `Set`: its values in insertion order. (An interface of the language's library.)
use converger.Prelude.{
  ◌+◌, ◌≤◌, ◌<◌, ◌≡◌, refl, Bool, true, false, List, [], ◌∷◌, ◌++◌, arith, length, StrictEq, ◌==◌,
  if◌then◌else◌, length-append,
}

abbrev pub Set {ℓ} : Type ℓ → Type ℓ
Set A = List A

module _ {ℓ} {A : Type ℓ} ⦃e : StrictEq A⦄ where
  -- s.has(a)
  unfoldable pub has : A → Set A → Bool
  has a [] = false
  has a (x ∷ xs) = if x == a then true else has a xs

  -- s.add(a)
  unfoldable pub add : A → Set A → Set A
  add a s = if has a s then s else s ++ (a ∷ [])

  -- s.delete(a)
  unfoldable pub delete : A → Set A → Set A
  delete a [] = []
  delete a (x ∷ xs) = let rest = delete a xs in if x == a then rest else x ∷ rest

  pub has-append :
      (a b : A) (s : Set A) → has b (s ++ (a ∷ [])) ≡ (if a == b then true else has b s)
  unfolding has
  has-append a b [] = refl
  has-append a b (x ∷ xs) = ground (arith, has-append a b xs)

  pub has-add : (a b : A) (s : Set A) → has b (add a s) ≡ (if a == b then true else has b s)
  unfolding add
  has-add a b s = ground (arith, has-append a b s, e.same_iff a b)

  pub has-delete : (a b : A) (s : Set A) → has b (delete a s) ≡ (if a == b then false else has b s)
  unfolding has delete
  has-delete a b [] = ground arith
  has-delete a b (x ∷ xs) =
      ground (arith, has-delete a b xs, e.same_iff x a, e.same_iff x b, e.same_iff a b)

  pub length-add : (a : A) (s : Set A) → length (add a s) ≤ length s + 1
  unfolding add
  length-add a s = ground (arith, length-append s (a ∷ []))

  pub length-delete : (a : A) (s : Set A) → length (delete a s) ≤ length s
  unfolding delete
  length-delete a [] = omega arith
  length-delete a (x ∷ xs) = ground (arith, length-delete a xs)

  -- Deleting a member makes the set smaller.
  pub length-delete-has : (a : A) (s : Set A) → has a s ≡ true → length (delete a s) < length s
  unfolding has delete
  length-delete-has a [] h = ground arith
  length-delete-has a (x ∷ xs) h = ground (arith, length-delete-has a xs, length-delete a xs)

  pub has-nil : (a : A) → has a [] ≡ false
  unfolding has
  has-nil a = refl

pub ruleset set_laws = (has-add, has-delete, has-nil)
