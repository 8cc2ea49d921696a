-- ===== src/Client/Outbox/Store.antt =====
-- outbox.ts: `ConversationStore`. Writes to the storage are serialised: `writing` holds those that
-- were not made yet, oldest first, each with the value whose JSON text is written.
use Prim.Native.String.{◌++◌ as string_append}
use converger.Prelude.{
  ℕ, Bool, true, false, ◌&&◌, Option, none, some, String, List, [], ◌∷◌, ◌++◌, ◌==◌, if◌then◌else◌,
  string_eq, nat_eq, option_eq,
}
use converger.Client.Outbox.Entries.{
  OutboxEntry, find, remove_first, bump_attempts, unknown_entries, ids,
}

-- ResumeState
pub record ResumeState : Type 0 where
  pub conversation_id : String
  pub user_id : Option String
  pub watermark : ℕ

-- Persisted
pub record Persisted : Type 0 where
  pub state : Option ResumeState
  pub outbox : List OutboxEntry

pub record Store : Type 0 where
  pub prefix : String
  pub key : Option String
  pub entries : List OutboxEntry
  pub state : Option ResumeState
  pub writing : List (String × Persisted)

-- What `getItem` and `JSON.parse` give for a key: nothing (`null` or the empty string), a throw, a
-- value without `v: 1`, or the fields of one, which may be absent.
pub data Stored : Type 0 where
  missing : Stored
  failure : Stored
  foreign : Stored
  version_1 : Option ResumeState → Option (List OutboxEntry) → Stored

-- #keyFor
unfoldable pub key_for : String → String → String
key_for prefix conversation_id =
    string_append prefix (string_append ":conversation:" conversation_id)

-- constructor
unfoldable pub new_store : String → Option String → Store
unfolding key_for
new_store prefix conversation_id = record {
  prefix = prefix;
  key = elim conversation_id [ none ↦ none | some id ↦ some (key_for prefix id) ];
  entries = [];
  state = none;
  writing = [];
}

abbrev pub snapshot : Store → Persisted
snapshot s = record { state = s.state; outbox = s.entries }

-- #persist
unfoldable pub persist : Store → Store
persist s = elim s.key [
  | none ↦ s
  | some k ↦ record s { writing = s.writing ++ ((k, snapshot s) ∷ []) }
]

abbrev pub or_else {ℓ} : {A : Type ℓ} → Option A → Option A → Option A
or_else (some a) b = some a
or_else none b = b

abbrev pub or_empty {ℓ} : {A : Type ℓ} → Option (List A) → List A
or_empty (some l) = l
or_empty none = []

-- The merge of `load`, on what the storage gave, and whether `onError` is called.
unfoldable pub merge_stored : Stored → Store → Store × Bool
merge_stored missing s = (s, false)
merge_stored failure s = (s, true)
merge_stored foreign s = (s, false)
merge_stored (version_1 state outbox) s = (
  record s {
    entries = unknown_entries (ids s.entries) (or_empty outbox) ++ s.entries;
    state = or_else state s.state;
  },
  false,
)

-- load
unfoldable pub load : Stored → Store → Store × Bool
unfolding merge_stored
load stored s = elim s.key [ none ↦ (s, false) | some _ ↦ merge_stored stored s ]

-- attach, up to its `await`: whether it goes on.
unfoldable pub attach_begin : String → Store → Store × Bool
unfolding key_for
attach_begin conversation_id s =
    let key = key_for s.prefix conversation_id in
    if option_eq s.key (some key) then (s, false) else (record s { key = some key }, true)

-- attach, from its `await` on.
unfoldable pub attach_end : Stored → Store → Store × Bool
unfolding load persist
attach_end stored s = let (s', failed) = load stored s in (persist s', failed)

-- get
unfoldable pub get : String → Store → Option OutboxEntry
unfolding find
get id s = find id s.entries

-- add
unfoldable pub add : OutboxEntry → Store → Store
unfolding persist
add e s = persist (record s { entries = s.entries ++ (e ∷ []) })

-- touch
unfoldable pub touch : String → Store → Store
unfolding get bump_attempts persist
touch id s = elim (get id s) [
  | none ↦ s
  | some _ ↦ persist (record s { entries = bump_attempts id s.entries })
]

-- remove
unfoldable pub remove : String → Store → Store × Option OutboxEntry
unfolding get remove_first persist
remove id s = elim (get id s) [
  | none ↦ (s, none)
  | some e ↦ (persist (record s { entries = remove_first id s.entries }), some e)
]

abbrev pub same_state : Option ResumeState → ResumeState → Bool
same_state none b = false
same_state (some a) b =
    a.conversation_id == b.conversation_id
    && option_eq a.user_id b.user_id
    && (a.watermark == b.watermark)

-- setState
unfoldable pub set_state : ResumeState → Store → Store
unfolding persist
set_state st s =
    let s' = record s { state = some st } in if same_state s.state st then s' else persist s'

-- clear, up to its `await`.
unfoldable pub clear : Store → Store
clear s = record s { entries = []; state = none }
