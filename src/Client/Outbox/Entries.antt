-- ===== src/Client/Outbox/Entries.antt =====
-- outbox.ts: the list of unacknowledged sends, searched by clientId.
use converger.Prelude.{
  ℕ, ◌+◌, ◌≡◌, refl, Bool, true, false, Option, none, some, String, List, [], ◌∷◌, ◌++◌, arith,
  ◌==◌, if◌then◌else◌, string_eq,
}
use text.Mathlib.TextEquality.{eq_iff}
use converger.Js.Set
use converger.Client.Frames.{ClientMessage}

-- OutboxEntry
pub record OutboxEntry : Type 0 where
  pub client_id : String
  pub frame : ClientMessage
  pub created_at : ℕ
  pub attempts : ℕ

-- entries.find((e) => e.clientId === clientId)
unfoldable pub find : String → List OutboxEntry → Option OutboxEntry
find id [] = none
find id (x ∷ xs) = if x.client_id == id then some x else find id xs

-- The `splice` of `remove`, at the first entry with that id.
unfoldable pub remove_first : String → List OutboxEntry → List OutboxEntry
remove_first id [] = []
remove_first id (x ∷ xs) =
    let rest = remove_first id xs in if x.client_id == id then xs else x ∷ rest

-- The `attempts += 1` of `touch`, at the first entry with that id.
unfoldable pub bump_attempts : String → List OutboxEntry → List OutboxEntry
bump_attempts id [] = []
bump_attempts id (x ∷ xs) =
    let rest = bump_attempts id xs in
    if x.client_id == id then record x { attempts = x.attempts + 1 } ∷ xs else x ∷ rest

-- The `filter` of `load`: the stored entries whose id is not in the outbox already.
unfoldable pub unknown_entries : Set.Set String → List OutboxEntry → List OutboxEntry
unknown_entries known [] = []
unknown_entries known (x ∷ xs) =
    let rest = unknown_entries known xs in if Set.has x.client_id known then rest else x ∷ rest

abbrev pub ids : List OutboxEntry → List String
ids [] = []
ids (x ∷ xs) = x.client_id ∷ ids xs

abbrev pub AllDistinct : List String → Type 0
AllDistinct [] = Unit
AllDistinct (x ∷ xs) = (Set.has x xs ≡ false) × AllDistinct xs

-- No two entries have the same id.
abbrev pub Distinct : List OutboxEntry → Type 0
Distinct xs = AllDistinct (ids xs)

-- An id is in the outbox.
abbrev pub holds : String → List OutboxEntry → Bool
holds id xs = Set.has id (ids xs)

pub find-holds :
    (id : String) (xs : List OutboxEntry) {e : OutboxEntry}
    → find id xs ≡ some e
    → holds id xs ≡ true
unfolding find Set.has
find-holds id [] h = ground arith
find-holds id (x ∷ xs) {e} h = ground (arith, find-holds id xs {e = e})

pub find-none : (id : String) (xs : List OutboxEntry) → find id xs ≡ none → holds id xs ≡ false
unfolding find Set.has
find-none id [] h = refl
find-none id (x ∷ xs) h = ground (arith, find-none id xs)

pub holds-remove_other :
    (id j : String) (xs : List OutboxEntry)
    → (id == j) ≡ false
    → holds j (remove_first id xs) ≡ holds j xs
unfolding remove_first Set.has
holds-remove_other id j [] h = refl
holds-remove_other id j (x ∷ xs) h =
    ground (
      arith,
      holds-remove_other id j xs h,
      eq_iff x.client_id id,
      eq_iff x.client_id j,
      eq_iff id j,
    )

pub holds-remove :
    (id j : String) (xs : List OutboxEntry)
    → holds j (remove_first id xs) ≡ true
    → holds j xs ≡ true
unfolding remove_first Set.has
holds-remove id j [] h = h
holds-remove id j (x ∷ xs) h = ground (arith, holds-remove id j xs)

pub holds-remove_self :
    (id : String) (xs : List OutboxEntry) → Distinct xs → holds id (remove_first id xs) ≡ false
unfolding remove_first Set.has
holds-remove_self id [] d = refl
holds-remove_self id (x ∷ xs) d = ground (arith, holds-remove_self id xs d.1, eq_iff x.client_id id)

pub remove_first-Distinct :
    (id : String) (xs : List OutboxEntry) → Distinct xs → Distinct (remove_first id xs)
unfolding remove_first
remove_first-Distinct id [] d = d
remove_first-Distinct id (x ∷ xs) d =
    ground (arith, remove_first-Distinct id xs d.1, holds-remove id x.client_id xs)

pub ids-bump : (id : String) (xs : List OutboxEntry) → ids (bump_attempts id xs) ≡ ids xs
unfolding bump_attempts
ids-bump id [] = refl
ids-bump id (x ∷ xs) = ground (arith, ids-bump id xs)

pub holds-append :
    (id : String) (xs ys : List OutboxEntry)
    → holds id (xs ++ ys) ≡ (if holds id xs then true else holds id ys)
unfolding Set.has
holds-append id [] ys = refl
holds-append id (x ∷ xs) ys = ground (arith, holds-append id xs ys)
