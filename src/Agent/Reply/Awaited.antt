-- ===== src/Agent/Reply/Awaited.antt =====
-- reply.ts: what the frames of a reply show before #finish, where the handler awaits its calls of typing.
use converger.Prelude.{
  ℕ, ◌≡◌, refl, Bool, true, false, String, List, [], ◌∷◌, string_eq, nat_eq, Option-cases, inl, inr,
}
use converger.Js.Map
use converger.Js.Map.{Map}
use converger.Agent.Reply.Stream.{Text, StreamImpl}
use converger.Agent.Reply.{Reply, send, send_run, new_reply, set_status, open_stream}
use converger.Agent.Reply.Run.{
  Step, status_set, message_sent, tool_reported, ui_shown, typing_set, typing_sent,
  typing_refreshed, asked, interrupt_sent, answered, answer_sent, stream_opened, wrote,
  stream_timed, stream_flushed, chunk_sent, stream_ended, stream_closed, ended_by_handler,
  streams_over, finish_sent, set_stream, stream_step, on_stream, step, steps,
}
use converger.Agent.Reply.Showing.{shown, Agrees, same-Agrees}
use converger.Agent.Reply.Agreement.{
  send_message-Agrees, report_tool-Agrees, show_ui-Agrees, show_typing-Agrees, typing_told-Agrees,
  refresh_typing-Agrees, ask-Agrees, ask_told-Agrees, ask_answered-Agrees, answer_told-Agrees,
  set_stream-Agrees, flush_stream-Agrees, close_stream-Agrees, end-Agrees,
}

-- Steps before #finish goes on behind its streams; where a call of typing awaits its send, no message is sent, of a
-- stream or not, and typing is not called.
abbrev pub IsAwaited : Step → Reply → Type 0
IsAwaited (message_sent kind payload) r = r.typing_starts ≡ 0
IsAwaited (typing_set refreshes on) r = r.typing_starts ≡ 0
IsAwaited (stream_closed k) r = r.typing_starts ≡ 0
IsAwaited streams_over r = ⊥
IsAwaited finish_sent r = ⊥
IsAwaited _ r = Unit

abbrev pub AllAwaited : (ℕ → String) → (Text → String) → List Step → Reply → Type 0
AllAwaited text_of payload_of [] r = Unit
AllAwaited text_of payload_of (e ∷ es) r =
    IsAwaited e r × AllAwaited text_of payload_of es (step text_of payload_of e r)

stream_step-Agrees :
    (payload_of : Text → String) (e : Step) (k : ℕ) (s : StreamImpl) (r : Reply)
    → IsAwaited e r
    → Agrees r
    → Agrees (stream_step payload_of e k s r)
unfolding stream_step set_stream
stream_step-Agrees payload_of (wrote n delta) k s r w a = set_stream-Agrees _ r a
stream_step-Agrees payload_of (stream_timed n) k s r w a = set_stream-Agrees _ r a
stream_step-Agrees payload_of (stream_flushed n) k s r w a = flush_stream-Agrees k s r a
stream_step-Agrees payload_of (chunk_sent n) k s r w a = set_stream-Agrees _ r a
stream_step-Agrees payload_of (stream_ended n) k s r w a = set_stream-Agrees _ r a
stream_step-Agrees payload_of (stream_closed n) k s r w a = close_stream-Agrees k s payload_of r w a
stream_step-Agrees payload_of (status_set x) k s r w a = a
stream_step-Agrees payload_of (message_sent x y) k s r w a = a
stream_step-Agrees payload_of (tool_reported x y z n) k s r w a = a
stream_step-Agrees payload_of (ui_shown x y) k s r w a = a
stream_step-Agrees payload_of (typing_set x y) k s r w a = a
stream_step-Agrees payload_of typing_sent k s r w a = a
stream_step-Agrees payload_of typing_refreshed k s r w a = a
stream_step-Agrees payload_of (asked x) k s r w a = a
stream_step-Agrees payload_of interrupt_sent k s r w a = a
stream_step-Agrees payload_of (answered x y) k s r w a = a
stream_step-Agrees payload_of answer_sent k s r w a = a
stream_step-Agrees payload_of (stream_opened x) k s r w a = a
stream_step-Agrees payload_of ended_by_handler k s r w a = a
stream_step-Agrees payload_of streams_over k s r w a = a
stream_step-Agrees payload_of finish_sent k s r w a = a

on_stream-Agrees :
    (payload_of : Text → String) (e : Step) (k : ℕ) (r : Reply)
    → IsAwaited e r
    → Agrees r
    → Agrees (on_stream payload_of e k r)
unfolding on_stream
on_stream-Agrees payload_of e k r w a = elim (Option-cases (Map.get k r.streams)) [
  | inl n ↦ rw (n, on_stream) a
  | inr (s, n) ↦ rw (n, on_stream) (stream_step-Agrees payload_of e k s r w a)
]

pub step-Agrees :
    (text_of : ℕ → String) (payload_of : Text → String) (e : Step) (r : Reply)
    → IsAwaited e r
    → Agrees r
    → Agrees (step text_of payload_of e r)
unfolding step open_stream set_status
step-Agrees text_of payload_of (status_set status) r w a =
    same-Agrees r (record r { status = status }) refl refl refl a.refreshing refl a
step-Agrees text_of payload_of (message_sent kind payload) r w a =
    send_message-Agrees kind payload r w a
step-Agrees text_of payload_of (tool_reported id status given now) r w a =
    report_tool-Agrees id status given now r a
step-Agrees text_of payload_of (ui_shown component id) r w a =
    show_ui-Agrees text_of component id r a
step-Agrees text_of payload_of (typing_set refreshes on) r w a =
    show_typing-Agrees refreshes on r w a
step-Agrees text_of payload_of typing_sent r w a = typing_told-Agrees r a
step-Agrees text_of payload_of typing_refreshed r w a = refresh_typing-Agrees r a
step-Agrees text_of payload_of (asked id) r w a = ask-Agrees id r a
step-Agrees text_of payload_of interrupt_sent r w a = ask_told-Agrees r a
step-Agrees text_of payload_of (answered id answer) r w a = ask_answered-Agrees id answer r a
step-Agrees text_of payload_of answer_sent r w a = answer_told-Agrees r a
step-Agrees text_of payload_of (stream_opened mode) r w a =
    same-Agrees r (open_stream mode r) refl refl refl a.refreshing refl a
step-Agrees text_of payload_of (wrote k delta) r w a =
    on_stream-Agrees payload_of (wrote k delta) k r tt a
step-Agrees text_of payload_of (stream_timed k) r w a =
    on_stream-Agrees payload_of (stream_timed k) k r tt a
step-Agrees text_of payload_of (stream_flushed k) r w a =
    on_stream-Agrees payload_of (stream_flushed k) k r tt a
step-Agrees text_of payload_of (chunk_sent k) r w a =
    on_stream-Agrees payload_of (chunk_sent k) k r tt a
step-Agrees text_of payload_of (stream_ended k) r w a =
    on_stream-Agrees payload_of (stream_ended k) k r tt a
step-Agrees text_of payload_of (stream_closed k) r w a =
    on_stream-Agrees payload_of (stream_closed k) k r w a
step-Agrees text_of payload_of ended_by_handler r w a = end-Agrees r a
step-Agrees text_of payload_of streams_over r w a = elim w [ ]
step-Agrees text_of payload_of finish_sent r w a = elim w [ ]

pub steps-Agrees :
    (text_of : ℕ → String) (payload_of : Text → String) (es : List Step) (r : Reply)
    → AllAwaited text_of payload_of es r
    → Agrees r
    → Agrees (steps text_of payload_of es r)
unfolding steps
steps-Agrees text_of payload_of [] r w a = a
steps-Agrees text_of payload_of (e ∷ es) r w a =
    steps-Agrees text_of payload_of es (step text_of payload_of e r) w.1
      (step-Agrees text_of payload_of e r w.0 a)

pub new_reply-Agrees : (runs : Bool) → Agrees (new_reply runs)
unfolding new_reply send_run send shown
new_reply-Agrees true = record {
  streaming = refl;
  typing = refl;
  refreshing = refl;
  running = refl;
}
new_reply-Agrees false = record {
  streaming = refl;
  typing = refl;
  refreshing = refl;
  running = refl;
}
