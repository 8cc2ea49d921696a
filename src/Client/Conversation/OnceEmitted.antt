-- ===== src/Client/Conversation/OnceEmitted.antt =====
-- conversation.ts: how often #onPersistent and #onAck report a seq.
use converger.Prelude.{
  ℕ, ◌+◌, ◌≤◌, ◌≡◌, Bool, true, false, not, ◌&&◌, Option, none, some, List, [], ◌∷◌, ◌==◌,
  string_eq, nat_eq, if◌then◌else◌, nat_beq_iff, arith, Bool-cases, inl, inr,
}
use converger.Js.Set
use converger.Client.Frames.{ActivityFrame, AckFrame}
use converger.Client.Receive.Watermark.{is_duplicate}
use converger.Client.Conversation.State.{Conversation, Env, emit}
use converger.Client.Conversation.Outbound.{flush, settle}
use converger.Client.Conversation.Inbound.{
  record_seq, record_ack, own_turn, own_id, accept_frame, end_replay, on_persistent, on_ack,
  activity_output,
}
use converger.Client.Conversation.Emissions.{
  emissions, emissions-append, IsSilent, IsSilent-trans, flush-IsSilent, check_gap-IsSilent,
  end_replay-IsSilent, settle-IsSilent, own_turn-IsSilent, record_seq-emissions, record_seq-known,
}

-- How often a seq was reported, and once more if it still may be.
pub budget : ℕ → Conversation → ℕ
budget n c = emissions n c.log + (if is_duplicate n c.receive then 0 else 1)

budget-IsSilent : (n : ℕ) {c d : Conversation} → IsSilent c d → budget n d ≡ budget n c
unfolding budget
budget-IsSilent n h = ground (arith, h.same_emissions n, h.same_known n)

-- The end of #onPersistent's first half, on a frame that is recorded.
budget-emit :
    (n : ℕ) (f : ActivityFrame) (c : Conversation)
    → budget n (emit (activity_output f) c) ≤ (if f.seq == n then budget n c + 1 else budget n c)
unfolding budget
budget-emit n f c = ground (arith, emissions-append n c.log (activity_output f))

budget-record_seq :
    (n seq : ℕ) (c : Conversation)
    → is_duplicate seq c.receive ≡ false
    → (if seq == n then budget n (record_seq seq c) + 1 else budget n (record_seq seq c))
      ≤ budget n c
unfolding budget
budget-record_seq n seq c h =
    ground (arith, record_seq-emissions n seq c, record_seq-known n seq c, nat_beq_iff seq n)

-- The test before the event.
abbrev is_reported : ActivityFrame → Conversation × Bool → Bool
is_reported f (c, own) = not own && not (Set.has f.seq c.receive.own_seqs) && not (own_id f c)

budget-accept_frame :
    (n : ℕ) (f : ActivityFrame) (c : Conversation) → budget n (accept_frame f c) ≤ budget n c
unfolding accept_frame
budget-accept_frame n f c = elim (Bool-cases (is_duplicate f.seq c.receive)) [
  | inl e ↦ rw (e, accept_frame) (ground arith)
  | inr e ↦
      let r = record_seq f.seq c in
      let t = own_turn f r in
      ground (
        arith,
        budget-record_seq n f.seq c e,
        budget-IsSilent n (own_turn-IsSilent f r),
        budget-emit n f t.0,
      )
]

budget-on_persistent :
    (n : ℕ) (env : Env) (f : ActivityFrame) (c : Conversation)
    → budget n (on_persistent env f c) ≤ budget n c
unfolding on_persistent
budget-on_persistent n env f c =
    let c1 = accept_frame f c in
    let c2 = end_replay env true c1 in
    ground (
      arith,
      budget-accept_frame n f c,
      budget-IsSilent n (end_replay-IsSilent env true c1),
      budget-IsSilent n (check_gap-IsSilent f.seq c1),
      budget-IsSilent n (check_gap-IsSilent f.seq c2),
    )

-- A recorded ack never raises the budget.
budget-record_any : (n seq : ℕ) (c : Conversation) → budget n (record_seq seq c) ≤ budget n c
unfolding budget
budget-record_any n seq c = ground (arith, record_seq-emissions n seq c, record_seq-known n seq c)

budget-record_ack :
    (n : ℕ) (seq : Option ℕ) (c : Conversation) → budget n (record_ack seq c) ≤ budget n c
budget-record_ack n none c = omega arith
budget-record_ack n (some seq) c = budget-record_any n seq c

budget-settle-flush :
    (n : ℕ) (env : Env) (f : AckFrame) (c : Conversation)
    → budget n (flush env (settle f c)) ≡ budget n c
budget-settle-flush n env f c =
    budget-IsSilent n (IsSilent-trans (settle-IsSilent f c) (flush-IsSilent env (settle f c)))

budget-on_ack :
    (n : ℕ) (env : Env) (f : AckFrame) (c : Conversation) → budget n (on_ack env f c) ≤ budget n c
unfolding on_ack
budget-on_ack n env f c =
    omega (arith, budget-settle-flush n env f (record_ack f.seq c), budget-record_ack n f.seq c)

-- What a server sends while a session neither starts over nor loses its connection.
pub data Delivery : Type 0 where
  activity : Env → ActivityFrame → Delivery
  acked : Env → AckFrame → Delivery

pub deliver : Delivery → Conversation → Conversation
deliver (activity env f) c = on_persistent env f c
deliver (acked env f) c = on_ack env f c

pub deliver_all : List Delivery → Conversation → Conversation
deliver_all [] c = c
deliver_all (d ∷ ds) c = deliver_all ds (deliver d c)

budget-deliver_all :
    (n : ℕ) (ds : List Delivery) (c : Conversation) → budget n (deliver_all ds c) ≤ budget n c
unfolding deliver_all deliver
budget-deliver_all n [] c = omega arith
budget-deliver_all n (activity env f ∷ ds) c =
    omega (arith, budget-deliver_all n ds (on_persistent env f c), budget-on_persistent n env f c)
budget-deliver_all n (acked env f ∷ ds) c =
    omega (arith, budget-deliver_all n ds (on_ack env f c), budget-on_ack n env f c)

-- Whatever persistent frames and acks arrive, in any order and with any repetitions, a seq that the
-- session knew is not reported again, and any other is reported at most once.
pub emitted_once :
    (n : ℕ) (ds : List Delivery) (c : Conversation)
    → emissions n (deliver_all ds c).log
      ≤ emissions n c.log + (if is_duplicate n c.receive then 0 else 1)
unfolding budget
emitted_once n ds c = omega (arith, budget-deliver_all n ds c)
