-- ===== src/Agent/Reply/Agreement.antt =====
-- reply.ts: what the frames of a reply show, at each operation.
use converger.Prelude.{
  ℕ, zero, suc, ltb, ◌≡◌, refl, Bool, true, false, ◌&&◌, ◌||◌, Option, none, some, String, arith,
  string_eq, nat_eq, Option-cases, Bool-cases, inl, inr,
}
use converger.Js.Map
use converger.Js.Map.{Map}
use converger.Agent.Reply.Stream.{Text, StreamImpl, StreamMode, is_empty, unended, waiting, ended}
use converger.Agent.Reply.Stream
use converger.Agent.Reply.{
  Frame, message, ui, typing, interrupt, interrupt_resolved, closing, Reply, send, send_run,
  is_type, text_type, post, send_message, truthy, or_known, start_of, report_tool, next_chunk_id,
  send_chunk, show_ui, show_typing, start_timer, typing_told, refresh_typing, ask, report_ask,
  ask_told, is_answering, ask_answered, report_answer, answer_told, flushed_chunk, put_chunk,
  flush_stream, leave_stream, final_payload, close_stream, end_all, end,
}
use converger.Agent.Reply.Run.{or_same}
use converger.Agent.Reply.Showing.{
  Shown, shown, show, IsTimed, timers_ok, Agrees, same-Agrees, send-Agrees, if-Agrees,
  send_run-Agrees,
}

-- A reply with no interval about to run may hide its indicator with the interval.
off-IsTimed :
    (on : Bool) (r : Reply)
    → r.typing_starts ≡ 0
    → IsTimed r
    → timers_ok false on r.typing_starts r.stray_timers ≡ true
off-IsTimed on r z t = ground (arith, nat_eq.same_iff r.stray_timers 0)

post-Agrees :
    (kind : Text) (payload : String) (r : Reply)
    → r.typing_starts ≡ 0
    → Agrees r
    → Agrees (post kind payload r)
unfolding post
post-Agrees kind payload r z a =
    send-Agrees (message kind payload) r (record r { typing_timer = false; typing_on = false }) refl
      a.streaming refl (off-IsTimed false r z a.refreshing) a.running

-- A chunk, a component, and another frame that shows nothing.
send_chunk-Agrees :
    (f : Frame) (r : Reply)
    → show f (shown r) ≡ record (shown r) { streaming = true }
    → Agrees r
    → Agrees (send_chunk f r)
unfolding send_chunk
send_chunk-Agrees f r h a =
    send-Agrees f r (record r { genui_open = true }) refl (rw h refl) (rw h a.typing) a.refreshing
      (rw h a.running)

pub plain-Agrees :
    (f : Frame) (r : Reply) → show f (shown r) ≡ shown r → Agrees r → Agrees (send f r)
plain-Agrees f r h a =
    send-Agrees f r r refl (rw h a.streaming) (rw h a.typing) a.refreshing (rw h a.running)

pub send_message-Agrees :
    (kind : Text) (payload : String) (r : Reply)
    → r.typing_starts ≡ 0
    → Agrees r
    → Agrees (or_same r (send_message kind payload r))
unfolding send_message
send_message-Agrees kind payload r z a = elim (Bool-cases (is_type kind)) [
  | inl e ↦ rw (e, send_message) (post-Agrees kind payload r z a)
  | inr e ↦ rw (e, send_message) a
]

pub report_tool-Agrees :
    (id status : String) (given : Option String) (now : ℕ) (r : Reply)
    → Agrees r
    → Agrees (or_same r (report_tool id status given now r))
unfolding report_tool
report_tool-Agrees id status given now r a =
    let known = Map.get id r.tools in
    elim (Option-cases (truthy (or_known given known))) [
      | inl e ↦ rw (e, report_tool) a
      | inr (name, e) ↦
          let s = record r {
            tools = Map.set id (record { name = name; started_at = start_of known now }) r.tools;
          } in
          rw (e, report_tool)
            (plain-Agrees _ s refl (same-Agrees r s refl refl refl a.refreshing refl a))
    ]

pub show_ui-Agrees :
    (text_of : ℕ → String) (component : String) (id : Option String) (r : Reply)
    → Agrees r
    → Agrees (show_ui text_of component id r)
unfolding show_ui next_chunk_id
show_ui-Agrees text_of component (some id) r a = send_chunk-Agrees (ui component id) r refl a
show_ui-Agrees text_of component none r a =
    let s = record r { chunk_id = suc r.chunk_id } in
    send_chunk-Agrees (ui component (text_of (suc r.chunk_id))) s refl
      (same-Agrees r s refl refl refl a.refreshing refl a)

pub show_typing-Agrees :
    (refreshes on : Bool) (r : Reply)
    → r.typing_starts ≡ 0
    → Agrees r
    → Agrees (show_typing refreshes on r)
unfolding show_typing send
show_typing-Agrees refreshes on r z a =
    let s = record r { typing_timer = false; typing_on = on } in
    let t = send (typing on) s in
    let told : Agrees t =
      send-Agrees (typing on) r s refl a.streaming refl (off-IsTimed on r z a.refreshing)
        a.running in
    if-Agrees (on && refreshes) (record t { typing_starts = suc r.typing_starts }) t
      (λ e.
        same-Agrees t (record t { typing_starts = suc r.typing_starts }) refl refl refl
          (ground (arith, z, e, told.refreshing)) refl told)
      (λ e. told)

start_timer-Agrees : (n : ℕ) (r : Reply) → r.typing_starts ≡ n → Agrees r → Agrees (start_timer n r)
unfolding start_timer
start_timer-Agrees zero r e a = a
start_timer-Agrees (suc n) r e a =
    same-Agrees r (start_timer (suc n) r) refl refl refl (ground (arith, a.refreshing)) refl a

pub typing_told-Agrees : (r : Reply) → Agrees r → Agrees (typing_told r)
unfolding typing_told
typing_told-Agrees r a = start_timer-Agrees r.typing_starts r refl a

refreshed_on :
    (r : Reply) → (r.typing_timer || ltb 0 r.stray_timers) ≡ true → IsTimed r → true ≡ r.typing_on
refreshed_on r e t = ground (arith, nat_eq.same_iff r.stray_timers 0)

pub refresh_typing-Agrees : (r : Reply) → Agrees r → Agrees (refresh_typing r)
unfolding refresh_typing
refresh_typing-Agrees r a =
    if-Agrees (r.typing_timer || ltb 0 r.stray_timers) (send (typing true) r) r
      (λ e.
        send-Agrees (typing true) r r refl a.streaming (refreshed_on r e a.refreshing) a.refreshing
          a.running)
      (λ e. a)

-- Without its interval, an indicator may be on or off.
pub stopped-IsTimed :
    (r : Reply) → IsTimed r → timers_ok false r.typing_on r.typing_starts r.stray_timers ≡ true
stopped-IsTimed r t = ground arith

pub ask-Agrees : (id : String) (r : Reply) → Agrees r → Agrees (ask id r)
unfolding ask
ask-Agrees id r a =
    let s = record r { typing_timer = false; asks_sending = suc r.asks_sending } in
    plain-Agrees (interrupt id) s refl
      (same-Agrees r s refl refl refl (stopped-IsTimed r a.refreshing) refl a)

report_ask-Agrees : (n : ℕ) (r : Reply) → Agrees r → Agrees (report_ask n r)
unfolding report_ask
report_ask-Agrees zero r a = a
report_ask-Agrees (suc n) r a =
    send_run-Agrees "interrupted" (record r { asks_sending = n })
      (same-Agrees r (record r { asks_sending = n }) refl refl refl a.refreshing refl a)

pub ask_told-Agrees : (r : Reply) → Agrees r → Agrees (ask_told r)
unfolding ask_told
ask_told-Agrees r a = report_ask-Agrees r.asks_sending r a

pub ask_answered-Agrees :
    (id answer : String) (r : Reply) → Agrees r → Agrees (ask_answered id answer r)
unfolding ask_answered
ask_answered-Agrees id answer r a =
    let s = record r { answers_sending = suc r.answers_sending } in
    plain-Agrees (interrupt_resolved id answer) s refl
      (same-Agrees r s refl refl refl a.refreshing refl a)

report_answer-Agrees : (n : ℕ) (r : Reply) → Agrees r → Agrees (report_answer n r)
unfolding report_answer
report_answer-Agrees zero r a = a
report_answer-Agrees (suc n) r a =
    let s = record r { answers_sending = n } in
    let b = same-Agrees r s refl refl refl a.refreshing refl a in
    if-Agrees (is_answering r.phase) (send_run "started" s) s (λ e. send_run-Agrees "started" s b)
      (λ e. b)

pub answer_told-Agrees : (r : Reply) → Agrees r → Agrees (answer_told r)
unfolding answer_told
answer_told-Agrees r a = report_answer-Agrees r.answers_sending r a

-- The streams are not shown.
pub set_stream-Agrees :
    (m : Map ℕ StreamImpl) (r : Reply) → Agrees r → Agrees (record r { streams = m })
set_stream-Agrees m r a =
    same-Agrees r (record r { streams = m }) refl refl refl a.refreshing refl a

-- A chunk that a flush sends.
some_chunk :
    (s t : StreamImpl) (f : Frame) (c : Shown)
    → flushed_chunk s t ≡ some f
    → show f c ≡ record c { streaming = true }
some_chunk s t f c h = ground arith

put_chunk-Agrees :
    (id : Option ℕ) (s t : StreamImpl) (f : Option Frame) (r : Reply)
    → flushed_chunk s t ≡ f
    → Agrees r
    → Agrees (put_chunk id f r)
unfolding put_chunk
put_chunk-Agrees id s t none r h a = a
put_chunk-Agrees none s t (some f) r h a =
    let r1 = record r { chunk_id = suc r.chunk_id } in
    send_chunk-Agrees f r1 (some_chunk s t f (shown r1) h)
      (same-Agrees r r1 refl refl refl a.refreshing refl a)
put_chunk-Agrees (some id) s t (some f) r h a =
    send_chunk-Agrees f r (some_chunk s t f (shown r) h) a

pub flush_stream-Agrees :
    (k : ℕ) (s : StreamImpl) (r : Reply) → Agrees r → Agrees (flush_stream k s r)
unfolding flush_stream
flush_stream-Agrees k s r a =
    let t = Stream.next_flush (suc r.chunk_id) s in
    let r1 = record r { streams = Map.set k t r.streams } in
    put_chunk-Agrees s.chunk_id s t (flushed_chunk s t) r1 refl
      (set_stream-Agrees (Map.set k t r.streams) r a)

leave_at :
    (k : ℕ) (t : StreamImpl) (e : Stream.Ending) (payload : Option String) (r : Reply)
    → r.typing_starts ≡ 0
    → Agrees r
    → Agrees (leave_stream k (record t { ending = e }) payload r)
unfolding leave_stream
leave_at k t unended payload r z a =
    set_stream-Agrees (Map.set k (record t { ending = unended }) r.streams) r a
leave_at k t waiting payload r z a =
    set_stream-Agrees (Map.set k (record t { ending = waiting }) r.streams) r a
leave_at k t ended none r z a = set_stream-Agrees (Map.delete k r.streams) r a
leave_at k t ended (some text) r z a =
    post-Agrees text_type text (record r { streams = Map.delete k r.streams }) z
      (set_stream-Agrees (Map.delete k r.streams) r a)

leave_stream-Agrees :
    (k : ℕ) (t : StreamImpl) (payload : Option String) (r : Reply)
    → r.typing_starts ≡ 0
    → Agrees r
    → Agrees (leave_stream k t payload r)
leave_stream-Agrees k t payload r z a = leave_at k t t.ending payload r z a

pub close_stream-Agrees :
    (k : ℕ) (s : StreamImpl) (payload_of : Text → String) (r : Reply)
    → r.typing_starts ≡ 0
    → Agrees r
    → Agrees (close_stream k s payload_of r)
unfolding close_stream
close_stream-Agrees k s payload_of r z a =
    leave_stream-Agrees k (Stream.flushed s) (final_payload payload_of s) r z a

pub end-Agrees : (r : Reply) → Agrees r → Agrees (end r)
unfolding end
end-Agrees r a =
    if-Agrees (is_answering r.phase) _ r
      (λ e.
        same-Agrees r
          (record r { phase = closing; typing_timer = false; streams = end_all r.streams }) refl
          refl refl (stopped-IsTimed r a.refreshing) refl a)
      (λ e. a)
