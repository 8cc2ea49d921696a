-- ===== src/Agent/Reply.antt =====
-- packages/agent-ts/src/reply.ts: `ReplyImpl`, what a handler answers a turn with. The payloads of frames that the reply
-- only carries are one text; `ReplyCore.send` is an output. A send puts its frame
-- out at once; what a call does behind the await of a send is a function of its own, and a step that may come at any
-- time later, or never where the send fails.
pub mod Stream
pub mod Run
pub mod Showing
pub mod Agreement
pub mod Awaited
pub mod Ends
pub mod Calm
pub mod Finished
mod Tests
use converger.Prelude.{
  ℕ, zero, suc, Bool, true, false, not, ◌&&◌, ◌||◌, Option, none, some, String, List, [], ◌∷◌, ◌++◌,
  if◌then◌else◌, length, nat_eq, string_eq, ◌==◌, leb, ltb,
}
use converger.Js.Map
use converger.Js.Map.{Map}
use converger.Agent.Reply.Stream.{
  Text, StreamImpl, StreamMode, new_stream, is_empty, unended, waiting, ended,
}
use converger.Agent.Reply.Stream

-- An agent frame, as `core.send` is given it.
pub data Frame : Type 0 where
  run : String → Frame
  message : Text → String → Frame
  chunk : ℕ → Text → Frame
  ui : String → String → Frame
  stream_done : ℕ → Frame
  typing : Bool → Frame
  tool_call : String → String → String → ℕ → Option ℕ → Frame
  interrupt : String → Frame
  interrupt_resolved : String → String → Frame

-- What #tools holds of a call.
pub record Tool : Type 0 where
  pub name : String
  pub started_at : ℕ

-- #ending: end was not called, or where #finish stands: at the ends of the streams, at the send that hides the typing
-- indicator, at the one that ends the chunks, at the one that reports the run, or at its end.
pub data Phase : Type 0 where
  answering closing hiding settling reporting finished : Phase

-- ReplyImpl. Beside its fields, the intervals that run although `#typing` no more holds them, and the calls of typing, of
-- ask and of answers that await a send.
pub record Reply : Type 0 where
  pub runs : Bool
  pub tools : Map String Tool
  pub streams : Map ℕ StreamImpl
  pub made : ℕ
  pub chunk_id : ℕ
  pub genui_open : Bool
  pub typing_timer : Bool
  pub typing_on : Bool
  pub stray_timers : ℕ
  pub typing_starts : ℕ
  pub asks_sending : ℕ
  pub answers_sending : ℕ
  pub phase : Phase
  pub status : String
  pub sent : List Frame

unfoldable pub send : Frame → Reply → Reply
send f r = record r { sent = r.sent ++ f ∷ [] }

-- #sendRun, where the reply sends `run` frames.
unfoldable pub send_run : String → Reply → Reply
send_run status r = if r.runs then send (run status) r else r

-- constructor
unfoldable pub new_reply : Bool → Reply
new_reply runs = send_run "started" (record {
  runs = runs;
  tools = [];
  streams = [];
  made = 0;
  chunk_id = 0;
  genui_open = false;
  typing_timer = false;
  typing_on = false;
  stray_timers = 0;
  typing_starts = 0;
  asks_sending = 0;
  answers_sending = 0;
  phase = answering;
  status = "finished";
  sent = [];
})

-- setStatus
unfoldable pub set_status : String → Reply → Reply
set_status status r = record r { status = status }

abbrev pub is_lower : ℕ → Bool
is_lower c = leb 97 c && leb c 122

abbrev pub is_word : ℕ → Bool
is_word c = is_lower c || ((leb 48 c && leb c 57) || ((c == 95) || (c == 45)))

unfoldable pub all_words : Text → Bool
all_words [] = true
all_words (c ∷ s) = let rest = all_words s in is_word c && rest

-- /^[a-z][a-z0-9_-]{0,63}$/
unfoldable pub is_type : Text → Bool
unfolding all_words
is_type [] = false
is_type (c ∷ s) = is_lower c && (all_words s && leb (length s) 63)

-- The text of the type "text".
abbrev pub text_type : Text
text_type = 116 ∷ 101 ∷ 120 ∷ 116 ∷ []

-- The part of `message` behind its check.
unfoldable pub post : Text → String → Reply → Reply
post kind payload r =
    send (message kind payload) (record r { typing_timer = false; typing_on = false })

-- message; none where it is refused.
unfoldable pub send_message : Text → String → Reply → Option Reply
send_message kind payload r = if is_type kind then some (post kind payload r) else none

abbrev pub truthy : Option String → Option String
truthy none = none
truthy (some s) = if s == "" then none else some s

abbrev pub or_known : Option String → Option Tool → Option String
or_known (some name) known = some name
or_known none none = none
or_known none (some tool) = some tool.name

abbrev pub start_of : Option Tool → ℕ → ℕ
start_of none now = now
start_of (some tool) now = tool.started_at

-- toolCall; none where it is refused.
unfoldable pub report_tool : String → String → Option String → ℕ → Reply → Option Reply
report_tool id status given now r =
    let known = Map.get id r.tools in
    let started = start_of known now in
    elim (truthy (or_known given known)) [
      | none ↦ none
      | some name ↦
          let ended_at = if status == "running" then none else some now in
          some (
            send (tool_call id name status started ended_at) (record r {
              tools = Map.set id (record { name = name; started_at = started }) r.tools;
            }))
    ]

-- nextChunkId
unfoldable pub next_chunk_id : Reply → ℕ × Reply
next_chunk_id r = (suc r.chunk_id, record r { chunk_id = suc r.chunk_id })

-- sendChunk
unfoldable pub send_chunk : Frame → Reply → Reply
send_chunk f r = send f (record r { genui_open = true })

-- ui, under an id of the caller's or the next.
unfoldable pub show_ui : (ℕ → String) → String → Option String → Reply → Reply
unfolding next_chunk_id
show_ui text_of component (some id) r = send_chunk (ui component id) r
show_ui text_of component none r =
    let (id, r1) = next_chunk_id r in send_chunk (ui component (text_of id)) r1

-- typing, up to its await; `refreshes` tells whether `typingRefreshMs` is positive.
unfoldable pub show_typing : Bool → Bool → Reply → Reply
show_typing refreshes on r =
    let s = send (typing on) (record r { typing_timer = false; typing_on = on }) in
    if on && refreshes then record s { typing_starts = suc r.typing_starts } else s

unfoldable pub start_timer : ℕ → Reply → Reply
start_timer zero r = r
start_timer (suc n) r = record r {
  typing_starts = n;
  stray_timers = if r.typing_timer then suc r.stray_timers else r.stray_timers;
  typing_timer = true;
}

-- typing, behind its await: the interval's handle takes the place of the one that is held.
unfoldable pub typing_told : Reply → Reply
typing_told r = start_timer r.typing_starts r

-- The callback of an interval.
unfoldable pub refresh_typing : Reply → Reply
refresh_typing r = if r.typing_timer || ltb 0 r.stray_timers then send (typing true) r else r

-- ask, up to the await of its first send.
unfoldable pub ask : String → Reply → Reply
ask id r =
    send (interrupt id) (record r { typing_timer = false; asks_sending = suc r.asks_sending })

unfoldable pub report_ask : ℕ → Reply → Reply
report_ask zero r = r
report_ask (suc n) r = send_run "interrupted" (record r { asks_sending = n })

-- ask, from that await to the one of the answer.
unfoldable pub ask_told : Reply → Reply
ask_told r = report_ask r.asks_sending r

abbrev pub is_answering : Phase → Bool
is_answering answering = true
is_answering _ = false

-- ask, from the answer to the await of its second send.
unfoldable pub ask_answered : String → String → Reply → Reply
ask_answered id answer r =
    send (interrupt_resolved id answer) (record r { answers_sending = suc r.answers_sending })

unfoldable pub report_answer : ℕ → Reply → Reply
report_answer zero r = r
report_answer (suc n) r =
    let s = record r { answers_sending = n } in
    if is_answering r.phase then send_run "started" s else s

-- The end of ask.
unfoldable pub answer_told : Reply → Reply
answer_told r = report_answer r.answers_sending r

-- stream
unfoldable pub open_stream : StreamMode → Reply → Reply
open_stream mode r = record r {
  streams = Map.set r.made (new_stream mode) r.streams;
  made = suc r.made;
}

-- The frame that a flush sends, of a stream before and after it.
abbrev pub flushed_chunk : StreamImpl → StreamImpl → Option Frame
flushed_chunk s t = elim t.chunk_id [
  | none ↦ none
  | some id ↦
      if not (is_empty s.buffer) && is_empty t.buffer then some (chunk id s.buffer) else none
]

-- The chunk of a flush, under the stream's id or the next of the reply.
unfoldable pub put_chunk : Option ℕ → Option Frame → Reply → Reply
put_chunk id none r = r
put_chunk none (some f) r = send_chunk f (record r { chunk_id = suc r.chunk_id })
put_chunk (some id) (some f) r = send_chunk f r

-- A link of a stream's chain.
unfoldable pub flush_stream : ℕ → StreamImpl → Reply → Reply
flush_stream k s r =
    let t = Stream.next_flush (suc r.chunk_id) s in
    put_chunk s.chunk_id (flushed_chunk s t) (record r { streams = Map.set k t r.streams })

-- A stream that is over is no more a stream of the reply, and may have sent its message.
unfoldable pub leave_stream : ℕ → StreamImpl → Option String → Reply → Reply
leave_stream k t payload r =
    let kept = record r { streams = Map.set k t r.streams } in
    let gone = record r { streams = Map.delete k r.streams } in
    let told : Reply = elim payload [ none ↦ gone | some text ↦ post text_type text gone ] in
    elim t.ending [ unended ↦ kept | waiting ↦ kept | ended ↦ told ]

abbrev pub final_payload : (Text → String) → StreamImpl → Option String
final_payload payload_of s =
    if Stream.has_message s.mode && not (is_empty s.written)
    then some (payload_of s.written)
    else none

-- #end of a stream, once its chain is done.
unfoldable pub close_stream : ℕ → StreamImpl → (Text → String) → Reply → Reply
close_stream k s payload_of r = leave_stream k (Stream.flushed s) (final_payload payload_of s) r

unfoldable pub end_all : Map ℕ StreamImpl → Map ℕ StreamImpl
end_all [] = []
end_all ((k, s) ∷ m) = (k, Stream.end s) ∷ end_all m

-- end
unfoldable pub end : Reply → Reply
end r =
    if is_answering r.phase
    then record r { phase = closing; typing_timer = false; streams = end_all r.streams }
    else r

-- The end of #finish.
unfoldable pub close_run : Reply → Reply
close_run r =
    if r.runs
    then record (send_run r.status r) { phase = reporting }
    else record r { phase = finished }

-- #finish from its test of #genuiOpen, up to an await.
unfoldable pub close_genui : Reply → Reply
close_genui r =
    if r.genui_open
    then send (stream_done (suc r.chunk_id))
        (record r { genui_open = false; chunk_id = suc r.chunk_id; phase = settling })
    else close_run r

-- #finish from its test of #typingOn, up to an await.
unfoldable pub hide_typing : Reply → Reply
hide_typing r =
    if r.typing_on
    then send (typing false) (record r { typing_on = false; phase = hiding })
    else close_genui r

-- #finish, behind the await of its streams.
unfoldable pub finish : Reply → Reply
finish r = elim r.phase [
  | closing ↦ hide_typing r
  | answering ↦ r
  | hiding ↦ r
  | settling ↦ r
  | reporting ↦ r
  | finished ↦ r
]

-- #finish, behind the await of each of its sends.
unfoldable pub finish_told : Reply → Reply
finish_told r = elim r.phase [
  | hiding ↦ close_genui r
  | settling ↦ close_run r
  | reporting ↦ record r { phase = finished }
  | answering ↦ r
  | closing ↦ r
  | finished ↦ r
]
