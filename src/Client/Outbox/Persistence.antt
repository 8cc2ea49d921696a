-- ===== src/Client/Outbox/Persistence.antt =====
-- outbox.ts: what the storage holds once the queued writes are made, and what a new session loads.
use converger.Prelude.{
  ◌≡◌, refl, ap, ◌∙◌, true, false, Option, none, some, String, List, [], ◌∷◌, ◌++◌, ◌==◌,
  if◌then◌else◌, string_eq, nat_eq, option_eq→eq, arith, Bool-cases, Option-cases, inl, inr,
  nat_beq_iff,
}
use text.Mathlib.TextEquality.{eq_iff}
use converger.Js.Map
use converger.Js.Map.{Map}
use converger.Client.Outbox.Entries.{OutboxEntry, find, remove_first, bump_attempts}
use converger.Client.Outbox.Store
use converger.Client.Outbox.Store.{
  Store, ResumeState, Persisted, Stored, snapshot, missing, version_1, persist, key_for, new_store,
  same_state, load,
}

-- `JSON.stringify` of a value that is written, and what `JSON.parse` makes of a text.
pub record Json : Type 0 where
  pub stringify : Persisted → String
  pub parse : String → Stored

abbrev pub Storage : Type 0
Storage = Map String String

-- The operations of a session between two awaits.
pub data Operation : Type 0 where
  add : OutboxEntry → Operation
  touch : String → Operation
  remove : String → Operation
  set_state : ResumeState → Operation

unfoldable pub perform : Operation → Store → Store
perform (add e) s = Store.add e s
perform (touch id) s = Store.touch id s
perform (remove id) s = (Store.remove id s).0
perform (set_state st) s = Store.set_state st s

unfoldable pub perform_all : List Operation → Store → Store
perform_all [] s = s
perform_all (o ∷ os) s = perform_all os (perform o s)

key-perform : (o : Operation) (s : Store) → (perform o s).key ≡ s.key
unfolding perform Store.add Store.touch Store.remove Store.set_state
key-perform (add e) s = ground arith
key-perform (touch id) s = ground arith
key-perform (remove id) s = ground arith
key-perform (set_state st) s = ground arith

pub key-perform_all : (os : List Operation) (s : Store) → (perform_all os s).key ≡ s.key
unfolding perform_all
key-perform_all [] s = refl
key-perform_all (o ∷ os) s = key-perform_all os (perform o s) ∙ key-perform o s

-- The text of a value is not empty, and parses to the fields that were written.
pub record RoundTrips (json : Json) (p : Persisted) : Type 0 where
  pub stringify_nonempty : (json.stringify p == "") ≡ false
  pub parse-stringify : json.parse (json.stringify p) ≡ version_1 p.state (some p.outbox)

module _ (json : Json) where
  -- What is in the storage when the queued writes were made, oldest first.
  unfoldable pub drain : List (String × Persisted) → Storage → Storage
  drain [] m = m
  drain ((k, p) ∷ w) m = drain w (Map.set k (json.stringify p) m)

  -- `getItem` and `JSON.parse`.
  unfoldable pub read : String → Storage → Stored
  read k m = elim (Map.get k m) [
    | none ↦ missing
    | some raw ↦ if raw == "" then missing else json.parse raw
  ]

  drain-append :
      (w : List (String × Persisted)) (k : String) (p : Persisted) (m : Storage)
      → drain (w ++ ((k, p) ∷ [])) m ≡ Map.set k (json.stringify p) (drain w m)
  unfolding drain
  drain-append [] k p m = refl
  drain-append ((j, q) ∷ w) k p m = drain-append w k p (Map.set j (json.stringify q) m)

  -- When the queued writes are made, the storage holds the current outbox and state.
  pub record IsSynced (m : Storage) (s : Store) : Type 0 where
    pub at_key :
        (k : String)
        → s.key ≡ some k
        → Map.get k (drain s.writing m) ≡ some (json.stringify (snapshot s))

  persist-IsSynced : (m : Storage) (s : Store) → IsSynced m (persist s)
  unfolding persist
  persist-IsSynced m s = record {
    at_key = λ k h. ground (
      arith,
      drain-append s.writing k (snapshot s) m,
      Map.get-set k k (json.stringify (snapshot s)) (drain s.writing m),
      eq_iff k k,
    );
  }

  -- A change of the entries that is not written breaks nothing if it changes nothing.
  touch-IsSynced :
      (m : Storage) (id : String) (s : Store) → IsSynced m s → IsSynced m (Store.touch id s)
  unfolding Store.touch
  touch-IsSynced m id s h = elim (Option-cases (find id s.entries)) [
    | inl e ↦ rw (e, Store.touch) h
    | inr (x, e) ↦
        rw (e, Store.touch) (persist-IsSynced m (record s { entries = bump_attempts id s.entries }))
  ]

  remove-IsSynced :
      (m : Storage) (id : String) (s : Store) → IsSynced m s → IsSynced m (Store.remove id s).0
  unfolding Store.remove
  remove-IsSynced m id s h = elim (Option-cases (find id s.entries)) [
    | inl e ↦ rw (e, Store.remove) h
    | inr (x, e) ↦
        rw (e, Store.remove) (persist-IsSynced m (record s { entries = remove_first id s.entries }))
  ]

  same_state→eq : (a : Option ResumeState) (b : ResumeState) → same_state a b ≡ true → a ≡ some b
  same_state→eq none b h = ground arith
  same_state→eq (some a) b h = ground (
    arith,
    eq_iff a.conversation_id b.conversation_id,
    option_eq→eq a.user_id b.user_id,
    nat_beq_iff a.watermark b.watermark,
  )

  set_state-IsSynced :
      (m : Storage) (st : ResumeState) (s : Store)
      → IsSynced m s
      → IsSynced m (Store.set_state st s)
  unfolding Store.set_state
  set_state-IsSynced m st s h = elim (Bool-cases (same_state s.state st)) [
    | inl e ↦ rw e (record {
      at_key = λ k p.
          h.at_key k p
          ∙ ap
              (λ (x : Option ResumeState).
                some (json.stringify (record { state = x; outbox = s.entries })))
              (same_state→eq s.state st e);
    })
    | inr e ↦ rw e (persist-IsSynced m (record s { state = some st }))
  ]

  perform-IsSynced :
      (m : Storage) (o : Operation) (s : Store) → IsSynced m s → IsSynced m (perform o s)
  unfolding perform Store.add
  perform-IsSynced m (add e) s h = persist-IsSynced m (record s { entries = s.entries ++ (e ∷ []) })
  perform-IsSynced m (touch id) s h = touch-IsSynced m id s h
  perform-IsSynced m (remove id) s h = remove-IsSynced m id s h
  perform-IsSynced m (set_state st) s h = set_state-IsSynced m st s h

  pub perform_all-IsSynced :
      (m : Storage) (os : List Operation) (s : Store) → IsSynced m s → IsSynced m (perform_all os s)
  unfolding perform_all
  perform_all-IsSynced m [] s h = h
  perform_all-IsSynced m (o ∷ os) s h =
      perform_all-IsSynced m os (perform o s) (perform-IsSynced m o s h)
