-- ===== src/Agent/Reply/Calm.antt =====
-- reply.ts: what messages, chunks and run frames leave as it is.
use converger.Prelude.{
  ℕ, zero, suc, ◌≡◌, refl, false, Option, none, some, String, arith, string_eq, nat_eq,
  Option-cases, inl, inr,
}
use converger.Js.Map
use converger.Js.Map.{Map}
use converger.Agent.Reply.Stream.{Text, StreamImpl, ended, unended, waiting}
use converger.Agent.Reply.Stream
use converger.Agent.Reply.{
  Frame, Reply, send, send_run, post, send_message, show_ui, next_chunk_id, send_chunk, report_ask,
  flushed_chunk, put_chunk, flush_stream, leave_stream, final_payload, close_stream,
}
use converger.Agent.Reply.Run.{stream_flushed, stream_closed, stream_step, on_stream, or_same}

-- A step that leaves the phase, the interval and the calls of typing as they are.
pub record Calm (r s : Reply) : Type 0 where
  pub phase : s.phase ≡ r.phase
  pub timer : s.typing_timer ≡ false
  pub starts : s.typing_starts ≡ r.typing_starts

pub send_message-Calm :
    (kind : Text) (payload : String) (r : Reply)
    → r.typing_timer ≡ false
    → Calm r (or_same r (send_message kind payload r))
unfolding send_message post send
send_message-Calm kind payload r t = ground arith

pub show_ui-Calm :
    (text_of : ℕ → String) (component : String) (id : Option String) (r : Reply)
    → r.typing_timer ≡ false
    → Calm r (show_ui text_of component id r)
unfolding show_ui next_chunk_id send_chunk send
show_ui-Calm text_of component none r t = record { phase = refl; timer = t; starts = refl }
show_ui-Calm text_of component (some id) r t = record { phase = refl; timer = t; starts = refl }

pub report_ask-Calm : (n : ℕ) (r : Reply) → r.typing_timer ≡ false → Calm r (report_ask n r)
unfolding report_ask send_run send
report_ask-Calm zero r t = record { phase = refl; timer = t; starts = refl }
report_ask-Calm (suc n) r t = ground arith

put_chunk-Calm :
    (id : Option ℕ) (f : Option Frame) (r : Reply)
    → r.typing_timer ≡ false
    → Calm r (put_chunk id f r)
unfolding put_chunk send_chunk send
put_chunk-Calm id none r t = record { phase = refl; timer = t; starts = refl }
put_chunk-Calm none (some f) r t = record { phase = refl; timer = t; starts = refl }
put_chunk-Calm (some id) (some f) r t = record { phase = refl; timer = t; starts = refl }

leave_at-Calm :
    (k : ℕ) (t : StreamImpl) (e : Stream.Ending) (payload : Option String) (r : Reply)
    → r.typing_timer ≡ false
    → Calm r (leave_stream k (record t { ending = e }) payload r)
unfolding leave_stream post send
leave_at-Calm k t unended payload r h = record { phase = refl; timer = h; starts = refl }
leave_at-Calm k t waiting payload r h = record { phase = refl; timer = h; starts = refl }
leave_at-Calm k t ended none r h = record { phase = refl; timer = h; starts = refl }
leave_at-Calm k t ended (some text) r h = record { phase = refl; timer = refl; starts = refl }

flush_stream-Calm :
    (k : ℕ) (s : StreamImpl) (r : Reply) → r.typing_timer ≡ false → Calm r (flush_stream k s r)
unfolding flush_stream
flush_stream-Calm k s r t =
    let u = Stream.next_flush (suc r.chunk_id) s in
    let m = record r { streams = Map.set k u r.streams } in
    let c = put_chunk-Calm s.chunk_id (flushed_chunk s u) m t in
    record { phase = c.phase; timer = c.timer; starts = c.starts }

close_stream-Calm :
    (k : ℕ) (s : StreamImpl) (payload_of : Text → String) (r : Reply)
    → r.typing_timer ≡ false
    → Calm r (close_stream k s payload_of r)
unfolding close_stream
close_stream-Calm k s payload_of r t =
    let u = Stream.flushed s in leave_at-Calm k u u.ending (final_payload payload_of s) r t

pub stream_flushed-Calm :
    (payload_of : Text → String) (k : ℕ) (r : Reply)
    → r.typing_timer ≡ false
    → Calm r (on_stream payload_of (stream_flushed k) k r)
unfolding on_stream stream_step
stream_flushed-Calm payload_of k r t = elim (Option-cases (Map.get k r.streams)) [
  | inl n ↦ simp (n, on_stream) (record { phase = refl; timer = t; starts = refl })
  | inr (s, n) ↦ simp (n, on_stream) (flush_stream-Calm k s r t)
]

pub stream_closed-Calm :
    (payload_of : Text → String) (k : ℕ) (r : Reply)
    → r.typing_timer ≡ false
    → Calm r (on_stream payload_of (stream_closed k) k r)
unfolding on_stream stream_step
stream_closed-Calm payload_of k r t = elim (Option-cases (Map.get k r.streams)) [
  | inl n ↦ simp (n, on_stream) (record { phase = refl; timer = t; starts = refl })
  | inr (s, n) ↦ simp (n, on_stream) (close_stream-Calm k s payload_of r t)
]
