-- ===== src/Agent/Reply/Tests.antt =====
-- Replies and streams on concrete inputs.
use converger.Prelude.{ℕ, ◌≡◌, refl, true, none, some, String, List, [], ◌∷◌, arith}
use converger.Agent.Reply.Stream
use converger.Agent.Reply.Stream.{
  Text, StreamMode, new_stream, wrote, timed, flushing_with, sent_chunk, ending_called, chain_done,
}
use converger.Agent.Reply.Stream.Complete.{contents, messages, stream_complete}
use converger.Agent.Reply.Stream.Ends.{run_chain, stream_ends}
use converger.Agent.Reply
use converger.Agent.Reply.{Reply, new_reply, end}
use converger.Agent.Reply.Run
use converger.Agent.Reply.Run.{
  Step, steps, typing_set, typing_sent, ui_shown, tool_reported, streams_over, finish_sent,
}

-- A stream written to twice, with a flush between, then ended.
abbrev whole_stream : List Stream.Step
whole_stream =
    wrote (104 ∷ [])
    ∷ timed
    ∷ flushing_with 1
    ∷ wrote (105 ∷ [])
    ∷ sent_chunk
    ∷ ending_called
    ∷ flushing_with 2
    ∷ sent_chunk
    ∷ chain_done
    ∷ []

whole_stream_ends :
    (Stream.steps whole_stream (new_stream StreamMode.genui_text)).ending ≡ Stream.ended
unfolding Stream.steps Stream.step Stream.write Stream.flush Stream.timer_fired Stream.next_flush
    Stream.chunk_sent Stream.end Stream.flushed
whole_stream_ends = refl

stream_complete_example :
    (contents (Stream.steps whole_stream (new_stream StreamMode.genui_text)).sent ≡ 104 ∷ 105 ∷ [])
    × (messages (Stream.steps whole_stream (new_stream StreamMode.genui_text)).sent
        ≡ (104 ∷ 105 ∷ []) ∷ [])
stream_complete_example = stream_complete StreamMode.genui_text whole_stream whole_stream_ends

stream_ends_example :
    (Stream.flushed
      (run_chain 1 1 (Stream.chunk_sent (Stream.end (new_stream StreamMode.genui))))).ending
    ≡ Stream.ended
stream_ends_example = stream_ends 1 1 (new_stream StreamMode.genui) refl (omega arith)

abbrev chunk_text : ℕ → String
chunk_text n = "1"

abbrev text_data : Text → String
text_data s = "{}"

-- The handler types, shows a component, and returns.
abbrev typing_handler : List Step
typing_handler = typing_set true true ∷ typing_sent ∷ ui_shown "card" none ∷ []

-- A tool call is reported between the sends of #finish.
abbrev finishing : List Step
finishing =
    streams_over
    ∷ finish_sent
    ∷ tool_reported "t" "completed" (some "search") 5
    ∷ finish_sent
    ∷ finish_sent
    ∷ []

abbrev typed : Reply
typed = steps chunk_text text_data typing_handler (new_reply true)
