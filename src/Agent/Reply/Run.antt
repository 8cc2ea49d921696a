-- ===== src/Agent/Reply/Run.antt =====
-- reply.ts: the calls of a reply, the timers and the ends of waits, as steps in any order.
use converger.Prelude.{ℕ, Bool, Option, none, some, String, List, [], ◌∷◌, nat_eq, string_eq}
use converger.Js.Map
use converger.Js.Map.{Map}
use converger.Agent.Reply.Stream.{
  Text, StreamImpl, StreamMode, new_stream, is_empty, unended, waiting, ended,
}
use converger.Agent.Reply.Stream
use converger.Agent.Reply.{
  Reply, set_status, send_message, report_tool, show_ui, show_typing, typing_told, refresh_typing,
  ask, ask_told, ask_answered, answer_told, open_stream, flush_stream, close_stream, end, finish,
  finish_told,
}

-- What happens to a reply; the streams are numbered in the order in which they were opened.
pub data Step : Type 0 where
  status_set : String → Step
  message_sent : Text → String → Step
  tool_reported : String → String → Option String → ℕ → Step
  ui_shown : String → Option String → Step
  typing_set : Bool → Bool → Step
  typing_sent typing_refreshed : Step
  asked : String → Step
  answered : String → String → Step
  interrupt_sent answer_sent : Step
  stream_opened : StreamMode → Step
  wrote : ℕ → Text → Step
  stream_timed stream_flushed chunk_sent stream_ended stream_closed : ℕ → Step
  ended_by_handler : Step
  streams_over finish_sent : Step

abbrev pub or_same : Reply → Option Reply → Reply
or_same r none = r
or_same r (some s) = s

unfoldable pub set_stream : ℕ → StreamImpl → Reply → Reply
set_stream k s r = record r { streams = Map.set k s r.streams }

-- A step of one of the reply's streams.
unfoldable pub stream_step : (Text → String) → Step → ℕ → StreamImpl → Reply → Reply
stream_step payload_of (wrote n delta) k s r =
    set_stream k (Stream.or_same s (Stream.write delta s)) r
stream_step payload_of (stream_timed n) k s r = set_stream k (Stream.timer_fired s) r
stream_step payload_of (stream_flushed n) k s r = flush_stream k s r
stream_step payload_of (chunk_sent n) k s r = set_stream k (Stream.chunk_sent s) r
stream_step payload_of (stream_ended n) k s r = set_stream k (Stream.end s) r
stream_step payload_of (stream_closed n) k s r = close_stream k s payload_of r
stream_step payload_of other k s r = r

unfoldable pub on_stream : (Text → String) → Step → ℕ → Reply → Reply
on_stream payload_of e k r = elim (Map.get k r.streams) [
  | none ↦ r
  | some s ↦ stream_step payload_of e k s r
]

-- `text_of` writes a chunk id, and `payload_of` the data of a text message.
unfoldable pub step : (ℕ → String) → (Text → String) → Step → Reply → Reply
step text_of payload_of (status_set status) r = set_status status r
step text_of payload_of (message_sent kind payload) r = or_same r (send_message kind payload r)
step text_of payload_of (tool_reported id status given now) r =
    or_same r (report_tool id status given now r)
step text_of payload_of (ui_shown component id) r = show_ui text_of component id r
step text_of payload_of (typing_set refreshes on) r = show_typing refreshes on r
step text_of payload_of typing_sent r = typing_told r
step text_of payload_of typing_refreshed r = refresh_typing r
step text_of payload_of (asked id) r = ask id r
step text_of payload_of interrupt_sent r = ask_told r
step text_of payload_of (answered id answer) r = ask_answered id answer r
step text_of payload_of answer_sent r = answer_told r
step text_of payload_of (stream_opened mode) r = open_stream mode r
step text_of payload_of (wrote k delta) r = on_stream payload_of (wrote k delta) k r
step text_of payload_of (stream_timed k) r = on_stream payload_of (stream_timed k) k r
step text_of payload_of (stream_flushed k) r = on_stream payload_of (stream_flushed k) k r
step text_of payload_of (chunk_sent k) r = on_stream payload_of (chunk_sent k) k r
step text_of payload_of (stream_ended k) r = on_stream payload_of (stream_ended k) k r
step text_of payload_of (stream_closed k) r = on_stream payload_of (stream_closed k) k r
step text_of payload_of ended_by_handler r = end r
step text_of payload_of streams_over r = finish r
step text_of payload_of finish_sent r = finish_told r

unfoldable pub steps : (ℕ → String) → (Text → String) → List Step → Reply → Reply
steps text_of payload_of [] r = r
steps text_of payload_of (e ∷ es) r = steps text_of payload_of es (step text_of payload_of e r)
