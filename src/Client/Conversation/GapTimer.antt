-- ===== src/Client/Conversation/GapTimer.antt =====
-- conversation.ts: what each operation does with the handle of the gap timer.
use converger.Prelude.{ℕ, ◌≡◌, refl, Bool, true, false, not, Option, none, some, arith}
use converger.Client.Frames.{ClientFrame, ActivityFrame, AckFrame}
use converger.Client.Conversation.State.{
  Conversation, Env, Timer, clear_timer, save_state, transport_send,
}
use converger.Client.Conversation.Outbound.{flush, settle}
use converger.Client.Conversation.Inbound.{
  schedule_refresh, end_replay, check_gap, record_seq, own_turn, accept_frame, on_persistent,
}

-- A handle whose timer will not fire.
abbrev pub is_dead : Option Timer → Bool
is_dead none = false
is_dead (some t) = not t.live

abbrev pub IsStuck : Conversation → Type 0
IsStuck c = is_dead c.gap_timer ≡ true

pub dead-clear_timer : (t : Option Timer) → is_dead t ≡ true → is_dead (clear_timer t) ≡ true
dead-clear_timer none h = h
dead-clear_timer (some t) h = refl

pub gap-flush : (env : Env) (c : Conversation) → (flush env c).gap_timer ≡ c.gap_timer
unfolding flush
gap-flush env c = ground arith

pub gap-save_state : (c : Conversation) → (save_state c).gap_timer ≡ c.gap_timer
unfolding save_state
gap-save_state c = ground arith

pub gap-transport_send :
    (env : Env) (f : ClientFrame) (c : Conversation)
    → (transport_send env f c).gap_timer ≡ c.gap_timer
unfolding transport_send
gap-transport_send env f c = ground arith

pub gap-schedule_refresh :
    (env : Env) (c : Conversation) → (schedule_refresh env c).gap_timer ≡ c.gap_timer
unfolding schedule_refresh
gap-schedule_refresh env c = ground arith

pub gap-end_replay :
    (env : Env) (b : Bool) (c : Conversation) → (end_replay env b c).gap_timer ≡ c.gap_timer
unfolding end_replay flush
gap-end_replay env b c = ground arith

pub gap-settle : (f : AckFrame) (c : Conversation) → (settle f c).gap_timer ≡ c.gap_timer
unfolding settle
gap-settle f c = ground arith

pub gap-record_seq : (n : ℕ) (c : Conversation) → (record_seq n c).gap_timer ≡ c.gap_timer
unfolding record_seq save_state
gap-record_seq n c = ground arith

pub gap-own_turn : (f : ActivityFrame) (c : Conversation) → (own_turn f c).0.gap_timer ≡ c.gap_timer
unfolding own_turn settle
gap-own_turn f c = ground arith

pub gap-accept_frame :
    (f : ActivityFrame) (c : Conversation) → (accept_frame f c).gap_timer ≡ c.gap_timer
unfolding accept_frame
gap-accept_frame f c = ground (arith, gap-record_seq f.seq c, gap-own_turn f (record_seq f.seq c))

pub gap-check_gap : (n : ℕ) (c : Conversation) → IsStuck c → check_gap n c ≡ c
unfolding check_gap
gap-check_gap n c h = ground arith

pub on_persistent-IsStuck :
    (env : Env) (f : ActivityFrame) (c : Conversation) → IsStuck c → IsStuck (on_persistent env f c)
unfolding on_persistent
on_persistent-IsStuck env f c h =
    let c1 = accept_frame f c in
    let c2 = end_replay env true c1 in
    ground (
      arith,
      gap-accept_frame f c,
      gap-end_replay env true c1,
      gap-check_gap f.seq c1,
      gap-check_gap f.seq c2,
    )
