-- ===== src/Client/Tests.antt =====
-- The outbox, the seqs and the tokens on concrete inputs.
use converger.Prelude.{
  ℕ, not, ◌+◌, ◌*◌, ◌<◌, ◌≡◌, refl, false, none, some, List, [], ◌∷◌, ◌&&◌, leb, string_eq, nat_eq,
  arith, same_refl,
}
use converger.Js.Set
use converger.Js.Map
use converger.Client.Outbox.Store
use converger.Client.Outbox.Entries.{OutboxEntry}
use converger.Client.Outbox.Store.{
  Store, Stored, Persisted, ResumeState, snapshot, key_for, new_store, load, version_1, persist,
}
use converger.Client.Outbox.Persistence.{
  Json, RoundTrips, Storage, Operation, perform, perform_all, drain, read, IsSynced,
}
use converger.Client.Outbox.Reload.{load-perform_all}
use converger.Client.Receive.Watermark.{new_receive, is_duplicate}
use converger.Client.Receive.Contiguous.{mark_all, watermark_contiguous}
use converger.Client.Token.{TokenInfo, TokenManager, ActiveToken, get, double_refresh_delay}
use converger.Client.Token.Expiry.{refresh_before_expiry}

abbrev seqs : List ℕ
seqs = 2 ∷ 1 ∷ 4 ∷ 1 ∷ []

watermark_contiguous_example :
    ((leb 2 (mark_all seqs new_receive).watermark && not (Set.has 2 seqs)) ≡ false)
    × (Set.has ((mark_all seqs new_receive).watermark + 1) seqs ≡ false)
    × (is_duplicate 2 (mark_all seqs new_receive) ≡ Set.has 2 seqs)
watermark_contiguous_example = watermark_contiguous seqs 1

abbrev token : ActiveToken
token = record { token = "t"; expires_at = some 600000; received_at = 0 }

abbrev tokens : TokenManager
tokens = record { skew_ms = 30000; current = some token; pending = false }

-- A token for ten minutes.
abbrev answer : TokenInfo
answer = record { token = "t"; expires_at = none; expires_in = some 600 }

delay_found : double_refresh_delay 1000 tokens ≡ some 1138000
unfolding double_refresh_delay
delay_found = refl

refresh_before_expiry_example : 2 * 1000 + 1138000 < 2 * 600000
refresh_before_expiry_example =
    refresh_before_expiry 1000 1138000 600000 tokens token refl refl (omega arith) (omega arith)
      delay_found

abbrev entry : OutboxEntry
entry = record {
  client_id = "a";
  frame = record {
    client_id = "a";
    text = "hello";
    attachments = none;
    metadata = none;
    meta = none;
    reply_to = none;
  };
  created_at = 1000;
  attempts = 0;
}

abbrev state : ResumeState
state = record { conversation_id = "conv"; user_id = none; watermark = 3 }

-- A session that just began, whose first message is added and whose state is saved.
abbrev operations : List Operation
operations = Operation.add entry ∷ Operation.set_state state ∷ []

abbrev storage : Storage
storage = (key_for "converger" "conv", "stored") ∷ []

abbrev started : Store
started = new_store "converger" (some "conv")

-- A codec that knows the one value.
abbrev json : Json
json = record {
  stringify = λ p. "stored";
  parse = λ text. version_1 (some state) (some (entry ∷ []));
}

started-IsSynced : IsSynced json storage started
unfolding drain Map.get new_store
started-IsSynced = record { at_key = λ k h. ground (arith, same_refl k) }

json-RoundTrips : RoundTrips json (snapshot (perform_all operations started))
unfolding perform_all perform Store.add Store.set_state persist new_store
json-RoundTrips = record { stringify_nonempty = refl; parse-stringify = refl }

started_key : started.key ≡ some (key_for "converger" "conv")
unfolding new_store
started_key = refl

load-perform_all_example :
    load
      (read json
        (key_for "converger" "conv")
        (drain json (perform_all operations started).writing storage))
      (new_store "converger" (some "conv"))
    ≡ (
      record (new_store "converger" (some "conv")) {
        entries = (perform_all operations started).entries;
        state = (perform_all operations started).state;
      },
      false,
    )
load-perform_all_example =
    load-perform_all json "converger" "conv" storage operations started started-IsSynced started_key
      json-RoundTrips
