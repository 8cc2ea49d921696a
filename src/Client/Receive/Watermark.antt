-- ===== src/Client/Receive/Watermark.antt =====
-- conversation.ts: the watermark, the seqs seen above it, and the own turns that were acknowledged.
use converger.Prelude.{
  ℕ, zero, suc, ◌+◌, Bool, true, false, Option, none, some, String, [], length, leb, ltb, drop,
  if◌then◌else◌, nat_eq, string_eq,
}
use converger.Js.Set
use converger.Js.Set.{Set}

pub record Receive : Type 0 where
  pub watermark : ℕ
  pub seen : Set ℕ
  pub own_seqs : Set ℕ
  pub own_ids : Set String

abbrev pub new_receive : Receive
new_receive = record { watermark = 0; seen = []; own_seqs = []; own_ids = [] }

-- One round of the `while` loop of #markSeen.
abbrev pub advance_once : Receive → Receive
advance_once r = record r {
  watermark = r.watermark + 1;
  seen = Set.delete (r.watermark + 1) r.seen;
  own_seqs = Set.delete (r.watermark + 1) r.own_seqs;
}

-- The loop, with fuel: each round takes a seq out of `seen`.
unfoldable pub advance : ℕ → Receive → Receive
advance zero r = r
advance (suc fuel) r =
    let rest = advance fuel (advance_once r) in if Set.has (r.watermark + 1) r.seen then rest else r

-- #markSeen; beside the state, whether `#saveState` is called.
unfoldable pub mark_seen : ℕ → Receive → Receive × Bool
unfolding advance
mark_seen seq r =
    if leb seq r.watermark
    then (r, false)
    else let r' = record r { seen = Set.add seq r.seen } in
      (advance (length r'.seen) r', Set.has (r'.watermark + 1) r'.seen)

-- The test of #onPersistent.
unfoldable pub is_duplicate : ℕ → Receive → Bool
is_duplicate seq r = if leb seq r.watermark then true else Set.has seq r.seen

-- The first lines of #settle: the own turn's seq and id, of the ids at most 1000.
unfoldable pub note_own : Option ℕ → String → Receive → Receive
note_own seq id r =
    let own_seqs : Set ℕ = elim seq [
      | none ↦ r.own_seqs
      | some n ↦ if ltb r.watermark n then Set.add n r.own_seqs else r.own_seqs
    ] in
    let own_ids = Set.add id r.own_ids in
    record r {
      own_seqs = own_seqs;
      own_ids = if ltb 1000 (length own_ids) then drop 1 own_ids else own_ids;
    }

-- The reset of #onWelcome and of the `invalid_watermark` case of #onError.
unfoldable pub reset : Receive → Receive
reset r = record r { watermark = 0; seen = [] }
