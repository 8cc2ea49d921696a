-- ===== src/Client/Conversation/Emissions.antt =====
-- conversation.ts: how often a seq is reported by an `activity` or `typing` event, and which parts of
-- a session neither report nor receive.
use converger.Prelude.{
  ℕ, ◌+◌, ◌≡◌, refl, ap, ◌∙◌, Bool, true, false, Option, String, List, [], ◌∷◌, ◌++◌, ◌==◌,
  string_eq, nat_eq, if◌then◌else◌, arith, Option-cases, inl, inr,
}
use converger.Client.Frames.{ActivityFrame, AckFrame}
use converger.Client.Receive.Watermark.{is_duplicate, note_own}
use converger.Client.Receive.Known.{duplicate-mark_seen}
use converger.Client.Conversation.State.{Conversation, Env, Output, emit, save_state}
use converger.Client.Conversation.Outbound.{flush, settle, send_result}
use converger.Client.Conversation.Inbound.{
  record_seq, own_turn, end_replay, check_gap, own_client_id, own_ack,
}

-- Whether an output is the event of a persistent frame with seq `n`.
abbrev pub reports : ℕ → Output → Bool
reports n (Output.activity f) = f.seq == n
reports n (Output.typing f) = f.seq == n
reports n _ = false

-- How often seq `n` was reported.
pub emissions : ℕ → List Output → ℕ
emissions n [] = 0
emissions n (o ∷ os) = if reports n o then emissions n os + 1 else emissions n os

pub emissions-append :
    (n : ℕ) (os : List Output) (o : Output)
    → emissions n (os ++ (o ∷ [])) ≡ (if reports n o then emissions n os + 1 else emissions n os)
unfolding emissions
emissions-append n [] o = ground arith
emissions-append n (p ∷ os) o = ground (arith, emissions-append n os o)

-- `d` reports nothing that `c` did not, and knows the same seqs.
pub record IsSilent (c d : Conversation) : Type 0 where
  pub same_emissions : (n : ℕ) → emissions n d.log ≡ emissions n c.log
  pub same_known : (n : ℕ) → is_duplicate n d.receive ≡ is_duplicate n c.receive

pub IsSilent-refl : (c : Conversation) → IsSilent c c
IsSilent-refl c = record { same_emissions = λ n. refl; same_known = λ n. refl }

pub IsSilent-trans : {c d e : Conversation} → IsSilent c d → IsSilent d e → IsSilent c e
IsSilent-trans h k = record {
  same_emissions = λ n. k.same_emissions n ∙ h.same_emissions n;
  same_known = λ n. k.same_known n ∙ h.same_known n;
}

abbrev same : (c d : Conversation) → d.log ≡ c.log → d.receive ≡ c.receive → IsSilent c d
same c d h k = record {
  same_emissions = λ n. ap (emissions n) h;
  same_known = λ n. ap (is_duplicate n) k;
}

pub flush-IsSilent : (env : Env) (c : Conversation) → IsSilent c (flush env c)
unfolding flush
flush-IsSilent env c = same c (flush env c) (ground arith) (ground arith)

pub save_state-IsSilent : (c : Conversation) → IsSilent c (save_state c)
unfolding save_state
save_state-IsSilent c = same c (save_state c) (ground arith) (ground arith)

pub check_gap-IsSilent : (highest : ℕ) (c : Conversation) → IsSilent c (check_gap highest c)
unfolding check_gap
check_gap-IsSilent highest c = same c (check_gap highest c) (ground arith) (ground arith)

pub end_replay-IsSilent :
    (env : Env) (b : Bool) (c : Conversation) → IsSilent c (end_replay env b c)
unfolding end_replay flush
end_replay-IsSilent env b c = same c (end_replay env b c) (ground arith) (ground arith)

pub emit-IsSilent :
    (o : Output) (c : Conversation) → ((n : ℕ) → reports n o ≡ false) → IsSilent c (emit o c)
emit-IsSilent o c h = record {
  same_emissions = λ n. ground (arith, emissions-append n c.log o, h n);
  same_known = λ n. refl;
}

duplicate-note_own :
    (n : ℕ) (seq : Option ℕ) (id : String) (c : Conversation)
    → is_duplicate n (note_own seq id c.receive) ≡ is_duplicate n c.receive
unfolding is_duplicate note_own
duplicate-note_own n seq id c = refl

pub settle-IsSilent : (f : AckFrame) (c : Conversation) → IsSilent c (settle f c)
unfolding settle
settle-IsSilent f c = record {
  same_emissions = λ n.
      let resolved = Output.resolve_send f.client_id (send_result f) in
      let reported = Output.sent (send_result f) in
      ground (
        arith,
        emissions-append n c.log resolved,
        emissions-append n c.log reported,
        emissions-append n (c.log ++ (resolved ∷ [])) reported,
      );
  same_known = λ n. ground (arith, duplicate-note_own n f.seq f.id c);
}

pub own_turn-IsSilent : (f : ActivityFrame) (c : Conversation) → IsSilent c (own_turn f c).0
unfolding own_turn
own_turn-IsSilent f c = elim (Option-cases (own_client_id f c)) [
  | inl e ↦ rw (e, own_turn) (IsSilent-refl c)
  | inr (id, e) ↦ rw (e, own_turn) (settle-IsSilent (own_ack id f) c)
]

-- Recording a seq makes it known and reports nothing.
pub record_seq-emissions :
    (n seq : ℕ) (c : Conversation) → emissions n (record_seq seq c).log ≡ emissions n c.log
unfolding record_seq save_state
record_seq-emissions n seq c = ap (emissions n) (ground arith)

pub record_seq-known :
    (n seq : ℕ) (c : Conversation)
    → is_duplicate n (record_seq seq c).receive
      ≡ (if seq == n then true else is_duplicate n c.receive)
unfolding record_seq save_state
record_seq-known n seq c = ground (arith, duplicate-mark_seen seq n c.receive)
