-- ===== src/Client/Outbox/Reload.antt =====
-- outbox.ts: a new store for a conversation, and what the last one left in the storage.
use converger.Prelude.{
  ◌≡◌, refl, ap, ◌∙◌, false, Option, none, some, String, List, [], ◌∷◌, append-nil, string_eq,
}
use converger.Js.Map
use converger.Js.Set
use converger.Client.Outbox.Entries.{OutboxEntry, unknown_entries}
use converger.Client.Outbox.Store.{Store, snapshot, key_for, new_store, load, or_else, version_1}
use converger.Client.Outbox.Persistence.{
  Json, Storage, Operation, perform_all, drain, read, RoundTrips, IsSynced, perform_all-IsSynced,
  key-perform_all,
}

unknown_entries-nil : (xs : List OutboxEntry) → unknown_entries [] xs ≡ xs
unfolding unknown_entries Set.has
unknown_entries-nil [] = refl
unknown_entries-nil (x ∷ xs) = ap (λ (r : List OutboxEntry). x ∷ r) (unknown_entries-nil xs)

or_else-none {ℓ} : {A : Type ℓ} (o : Option A) → or_else o none ≡ o
or_else-none none = refl
or_else-none (some a) = refl

module _ (json : Json) where
  -- What a read finds where the text of a value is stored.
  read-stringify :
      (k : String) (m : Storage) (s : Store)
      → RoundTrips json (snapshot s)
      → Map.get k m ≡ some (json.stringify (snapshot s))
      → read json k m ≡ version_1 s.state (some s.entries)
  unfolding read
  read-stringify k m s r h = rw (h, read, r.stringify_nonempty) r.parse-stringify

  -- From a store whose outbox and state reach the storage, after any operations, a new store for the
  -- same conversation that loads what the storage holds when the queued writes are made has the
  -- outbox and the state of the old one, and reports no error; JSON carries the last value.
  pub load-perform_all :
      (prefix id : String) (m : Storage) (os : List Operation) (s : Store)
      → IsSynced json m s
      → s.key ≡ some (key_for prefix id)
      → RoundTrips json (snapshot (perform_all os s))
      → load
          (read json (key_for prefix id) (drain json (perform_all os s).writing m))
          (new_store prefix (some id))
        ≡ (
          record (new_store prefix (some id)) {
            entries = (perform_all os s).entries;
            state = (perform_all os s).state;
          },
          false,
        )
  unfolding load new_store
  load-perform_all prefix id m os s h k r =
      rw
        (read-stringify (key_for prefix id) (drain json (perform_all os s).writing m)
          (perform_all os s) r
          ((perform_all-IsSynced json m os s h).at_key (key_for prefix id)
            (key-perform_all os s ∙ k)))
        (simp (unknown_entries-nil, append-nil, or_else-none))
