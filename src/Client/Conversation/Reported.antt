-- ===== src/Client/Conversation/Reported.antt =====
-- conversation.ts: what #onPersistent reports of one frame.
use converger.Prelude.{
  ℕ, zero, suc, ◌+◌, ◌≡◌, refl, Bool, true, false, none, [], ◌∷◌, ◌++◌, string_eq, nat_eq, arith,
  length,
}
use converger.Js.Set
use converger.Client.Frames.{ActivityFrame}
use converger.Client.Outbox.Store
use converger.Client.Receive.Watermark.{Receive, advance, advance_once, mark_seen, is_duplicate}
use converger.Client.Conversation.State.{Conversation, Env, emit, save_state}
use converger.Client.Conversation.Outbound.{flush}
use converger.Client.Conversation.Inbound.{
  record_seq, own_turn, own_client_id, own_id, accept_frame, end_replay, check_gap, on_persistent,
  activity_output,
}

-- The own turns that the session remembers while it records seqs.
own_seqs-advance :
    (n fuel : ℕ) (r : Receive)
    → Set.has n r.own_seqs ≡ false
    → Set.has n (advance fuel r).own_seqs ≡ false
unfolding advance
own_seqs-advance n zero r h = h
own_seqs-advance n (suc fuel) r h =
    ground (
      arith,
      own_seqs-advance n fuel (advance_once r),
      Set.has-delete (r.watermark + 1) n r.own_seqs,
    )

own_ids-advance : (fuel : ℕ) (r : Receive) → (advance fuel r).own_ids ≡ r.own_ids
unfolding advance
own_ids-advance zero r = refl
own_ids-advance (suc fuel) r = ground (arith, own_ids-advance fuel (advance_once r))

module _ (seq : ℕ) (c : Conversation) where
  abbrev added : Receive
  added = record c.receive { seen = Set.add seq c.receive.seen }

  own_seqs-record_seq :
      (n : ℕ)
      → Set.has n c.receive.own_seqs ≡ false
      → Set.has n (record_seq seq c).receive.own_seqs ≡ false
  unfolding record_seq save_state mark_seen
  own_seqs-record_seq n h = ground (arith, own_seqs-advance n (length added.seen) added)

  own_ids-record_seq : (record_seq seq c).receive.own_ids ≡ c.receive.own_ids
  unfolding record_seq save_state mark_seen
  own_ids-record_seq = ground (arith, own_ids-advance (length added.seen) added)

  entries-record_seq : (record_seq seq c).sending.store.entries ≡ c.sending.store.entries
  unfolding record_seq save_state Store.set_state
  entries-record_seq = ground arith

  log-record_seq : (record_seq seq c).log ≡ c.log
  unfolding record_seq save_state
  log-record_seq = ground arith

-- A frame from somebody else: no pending send, no acknowledged turn.
pub record IsForeign (f : ActivityFrame) (c : Conversation) : Type 0 where
  pub no_pending_send : own_client_id f c ≡ none
  pub no_own_seq : Set.has f.seq c.receive.own_seqs ≡ false
  pub no_own_id : own_id f c ≡ false

record_seq-IsForeign :
    (f : ActivityFrame) (c : Conversation) → IsForeign f c → IsForeign f (record_seq f.seq c)
unfolding Store.get
record_seq-IsForeign f c h = record {
  no_pending_send = ground (arith, entries-record_seq f.seq c, h.no_pending_send);
  no_own_seq = own_seqs-record_seq f.seq c f.seq h.no_own_seq;
  no_own_id = ground (arith, own_ids-record_seq f.seq c, h.no_own_id);
}

accept_foreign :
    (f : ActivityFrame) (c : Conversation)
    → is_duplicate f.seq c.receive ≡ false
    → IsForeign f c
    → accept_frame f c ≡ emit (activity_output f) (record_seq f.seq c)
unfolding accept_frame own_turn
accept_foreign f c new h =
    let k = record_seq-IsForeign f c h in
    ground (arith, k.no_pending_send, k.no_own_seq, k.no_own_id)

log-end_replay : (env : Env) (b : Bool) (c : Conversation) → (end_replay env b c).log ≡ c.log
unfolding end_replay flush
log-end_replay env b c = ground arith

log-check_gap : (n : ℕ) (c : Conversation) → (check_gap n c).log ≡ c.log
unfolding check_gap
log-check_gap n c = ground arith

-- A persistent frame whose seq is not known, that answers no pending send and is no acknowledged own
-- turn, is reported by one event, and the handler reports nothing else.
pub on_persistent_new :
    (env : Env) (f : ActivityFrame) (c : Conversation)
    → is_duplicate f.seq c.receive ≡ false
    → IsForeign f c
    → (on_persistent env f c).log ≡ c.log ++ (activity_output f ∷ [])
unfolding on_persistent
on_persistent_new env f c new h =
    let c1 = accept_frame f c in
    ground (
      arith,
      accept_foreign f c new h,
      log-record_seq f.seq c,
      log-end_replay env true c1,
      log-check_gap f.seq c1,
      log-check_gap f.seq (end_replay env true c1),
    )

-- A frame whose seq is known is reported by no event.
pub on_persistent_duplicate :
    (env : Env) (f : ActivityFrame) (c : Conversation)
    → is_duplicate f.seq c.receive ≡ true
    → (on_persistent env f c).log ≡ c.log
unfolding on_persistent accept_frame
on_persistent_duplicate env f c old = ground (
  arith,
  log-end_replay env true c,
  log-check_gap f.seq c,
  log-check_gap f.seq (end_replay env true c),
)
