-- ===== src/Agent/Turns/Inbound/Repeated.antt =====
-- agent.ts: a frame that is delivered again.
use converger.Prelude.{
  ℕ, zero, suc, ◌<◌, ◌≡◌, refl, true, false, none, some, String, List, [], ◌∷◌, arith, string_eq,
  Option-cases, inl, inr,
}
use converger.Js.Map
use converger.Js.Map.{Map}
use converger.Agent.Watermarks
use converger.Agent.Watermarks.{WatermarkTracker}
use converger.Agent.Watermarks.Recording.{record_seq_lem}
use converger.Agent.Turns.Inbound.{Frame, Inbound, dispatch_message, deliver, on_frame, on_frames}

dispatch_message_rest :
    (id : String) (f : Frame) (s : Inbound)
    → ((dispatch_message id f s).tracker ≡ s.tracker)
      × ((dispatch_message id f s).histories ≡ s.histories)
unfolding dispatch_message
dispatch_message_rest id f s = ground arith

deliver_rest :
    (id : String) (f : Frame) (n : ℕ) (s : Inbound)
    → ((deliver id f n s).tracker ≡ (Watermarks.record_seq id n s.tracker).0)
      × ((deliver id f n s).histories ≡ s.histories)
unfolding deliver
deliver_rest id f n s = ground (
  arith,
  dispatch_message_rest id f (record s { tracker = (Watermarks.record_seq id n s.tracker).0 }),
)

-- A frame of a conversation that no history collects.
on_frame-deliver :
    (id : String) (f : Frame) (n : ℕ) (s : Inbound)
    → f.seq ≡ some n
    → Map.get id s.histories ≡ none
    → on_frame id f s ≡ deliver id f n s
unfolding on_frame
on_frame-deliver id f n s e h = ground arith

on_frame-dispatch :
    (id : String) (f : Frame) (s : Inbound)
    → f.seq ≡ none
    → on_frame id f s ≡ dispatch_message id f s
unfolding on_frame
on_frame-dispatch id f s e = ground arith

capacity-record_seq :
    (id : String) (n : ℕ) (t : WatermarkTracker)
    → (Watermarks.record_seq id n t).0.capacity ≡ t.capacity
unfolding Watermarks.record_seq Watermarks.touch_position
capacity-record_seq id zero t = refl
capacity-record_seq id (suc n) t = refl

-- That a seq of the conversation was seen, and nothing collects its frames.
record IsSeen (id : String) (k : ℕ) (s : Inbound) : Type 0 where
  seen : Watermarks.seen id k s.tracker ≡ true
  capacity : 0 < s.tracker.capacity
  idle : Map.get id s.histories ≡ none

record_seq_zero : (id : String) (t : WatermarkTracker) → (Watermarks.record_seq id 0 t).0 ≡ t
unfolding Watermarks.record_seq
record_seq_zero id t = refl

deliver-IsSeen :
    (id : String) (f : Frame) (k n : ℕ) (s : Inbound)
    → IsSeen id k s
    → IsSeen id k (deliver id f n s)
deliver-IsSeen id f k zero s i = record {
  seen = ground (arith, deliver_rest id f 0 s, record_seq_zero id s.tracker, i.seen);
  capacity = ground (arith, deliver_rest id f 0 s, record_seq_zero id s.tracker, i.capacity);
  idle = ground (arith, deliver_rest id f 0 s, i.idle);
}
deliver-IsSeen id f k (suc n) s i = record {
  seen =
      ground
        (arith, deliver_rest id f (suc n) s, record_seq_lem id n k s.tracker i.capacity, i.seen);
  capacity =
      ground
        (arith, deliver_rest id f (suc n) s, capacity-record_seq id (suc n) s.tracker, i.capacity);
  idle = ground (arith, deliver_rest id f (suc n) s, i.idle);
}

on_frame-IsSeen :
    (id : String) (f : Frame) (k : ℕ) (s : Inbound) → IsSeen id k s → IsSeen id k (on_frame id f s)
on_frame-IsSeen id f k s i = elim (Option-cases f.seq) [
  | inl e ↦
      let rest = dispatch_message_rest id f s in
      rw (on_frame-dispatch id f s e) (record {
        seen = ground (arith, rest, i.seen);
        capacity = ground (arith, rest, i.capacity);
        idle = ground (arith, rest, i.idle);
      })
  | inr (n, e) ↦ rw (on_frame-deliver id f n s e i.idle) (deliver-IsSeen id f k n s i)
]

on_frames-IsSeen :
    (id : String) (fs : List Frame) (k : ℕ) (s : Inbound)
    → IsSeen id k s
    → IsSeen id k (on_frames id fs s)
unfolding on_frames
on_frames-IsSeen id [] k s i = i
on_frames-IsSeen id (f ∷ fs) k s i =
    on_frames-IsSeen id fs k (on_frame id f s) (on_frame-IsSeen id f k s i)

deliver-stale :
    (id : String) (f : Frame) (n : ℕ) (s : Inbound)
    → (Watermarks.record_seq id n s.tracker).1 ≡ false
    → (deliver id f n s).turns ≡ s.turns
unfolding deliver
deliver-stale id f n s e = ground arith

-- A frame with a positive seq that comes again is dispatched no second time, whatever other frames of its conversation
-- came between, where the tracker has room for one conversation at least and no history of the conversation is being
-- collected.
pub repeated_frame_dropped :
    (id : String) (f : Frame) (n : ℕ) (fs : List Frame) (s : Inbound)
    → f.seq ≡ some (suc n)
    → 0 < s.tracker.capacity
    → Map.get id s.histories ≡ none
    → (on_frame id f (on_frames id fs (on_frame id f s))).turns
      ≡ (on_frames id fs (on_frame id f s)).turns
repeated_frame_dropped id f n fs s e c h =
    let rest = deliver_rest id f (suc n) s in
    let first : IsSeen id (suc n) (on_frame id f s) =
      rw (on_frame-deliver id f (suc n) s e h) (record {
        seen = ground (arith, rest, record_seq_lem id n n s.tracker c);
        capacity = ground (arith, rest, capacity-record_seq id (suc n) s.tracker);
        idle = ground (arith, rest);
      }) in
    let t = on_frames id fs (on_frame id f s) in
    let later = on_frames-IsSeen id fs (suc n) (on_frame id f s) first in
    rw (on_frame-deliver id f (suc n) t e later.idle) (
      deliver-stale id f (suc n) t
        (ground (arith, record_seq_lem id n n t.tracker later.capacity, later.seen)))
