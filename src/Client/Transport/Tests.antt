-- ===== src/Client/Transport/Tests.antt =====
-- The transports on concrete inputs.
use converger.Prelude.{
  ◌≤◌, ◌≡◌, refl, true, false, Option, none, some, String, List, [], ◌∷◌, ◌++◌, arith, append-nil,
  length, map, string_eq, if◌then◌else◌,
}
use converger.Js.Map
use converger.Js.Set
use converger.Client.Frames
use converger.Client.Frames.{
  ServerFrame, ClientMessage, ActivityFrame, OtherFrame, JsNumber, value, nat,
}
use converger.Client.Transport.Sse.Stream.{
  Text, split_boundary, feed, feed_all, payload, join_lines,
}
use converger.Client.Transport.Sse.Chunks.{concat, feed_all-concat}
use converger.Client.Transport.Sse.Payload.{
  ServerEvent, retry, frame, stream_text, feed_all-stream_text,
}
use converger.Client.Transport.Sse.Session.{
  SseTransport, on_frame, receive, post_result, accepted, ack_of,
}
use converger.Client.Transport.Sse.Recent.{receive_all}
use converger.Client.Transport.Sse.Acks.{frame_first_acked, post_first_acked}
use converger.Client.Transport.Sse.Closing
use converger.Client.Transport.Sse.Closing.{Step, steps, sse_close_once}
use converger.Client.Transport.Sse.Agreement.{closes}
use converger.Client.Transport.Phoenix
use converger.Client.Transport.Phoenix.{
  PhoenixTransport, Event, channel, beat, rejoin, on_activity_set,
}
use converger.Client.Transport.Phoenix.Seqs.{numbered, activity_of, activity_set_seqs}
use converger.Client.Transport.Phoenix.Joins.{rejoin_ignores}
use converger.Client.Transport.Phoenix.Heartbeat
use converger.Client.Transport.Phoenix.Heartbeat.{unanswered_beat_closes}

-- Two reads that part an event in the midst of its blank line.
abbrev reads : List Text
reads = (100 ∷ 97 ∷ 116 ∷ 97 ∷ 58 ∷ 32 ∷ 55 ∷ 10 ∷ []) ∷ (10 ∷ 58 ∷ []) ∷ []

no_boundary : split_boundary [] ≡ none
unfolding split_boundary
no_boundary = refl

feed_all-concat_example : feed_all [] reads ≡ feed [] (concat reads)
feed_all-concat_example = feed_all-concat [] reads no_boundary

abbrev served : List ServerEvent
served = retry ∷ frame (some (55 ∷ [])) (116 ∷ []) (123 ∷ 125 ∷ []) ∷ []

feed_all-stream_text_example :
    (map payload (feed_all [] (stream_text served ∷ [])).0 ≡ none ∷ some (123 ∷ 125 ∷ []) ∷ [])
    × ((feed_all [] (stream_text served ∷ [])).1 ≡ [])
unfolding join_lines
feed_all-stream_text_example =
    feed_all-stream_text served (stream_text served ∷ []) (omega arith)
      (append-nil (stream_text served))

abbrev open_stream : SseTransport
open_stream = record {
  has_fetch = true;
  conversation_id = some "c";
  user_id = some "u";
  token_expiry = none;
  liveness_ms = 75000;
  opened = true;
  closed = false;
  recent = [];
  awaiting = [];
  liveness = some 75000;
  retry_after_ms = none;
  buffer = [];
  effects = [];
}

abbrev turn : ClientMessage
turn = record {
  client_id = "m-1";
  text = "hi";
  attachments = none;
  metadata = none;
  meta = none;
  reply_to = none;
}

abbrev turn_frame : OtherFrame
turn_frame = record {
  frame_type = "text";
  seq = value (nat 7);
  id = some "a-1";
  from = some "user";
  client_id = none;
  body = "{}";
}

abbrev activity : ActivityFrame
activity = record {
  frame_type = "text";
  id = some "a-1";
  seq = 7;
  from = some "user";
  client_id = none;
  body = "{}";
}

turn_is_persistent : Frames.is_persistent turn_frame ≡ some activity
unfolding Frames.is_persistent Frames.positive_integer Set.has
turn_is_persistent = refl

none_recent : Map.get "a-1" open_stream.recent ≡ none
unfolding Map.get
none_recent = refl

abbrev between : List ServerFrame
between = ServerFrame.heartbeat none ∷ []

frame_first_acked_example :
    (post_result turn
      (accepted (some "a-1"))
      (receive_all between (receive (ServerFrame.other turn_frame) open_stream))).effects
    ≡ (receive_all between (receive (ServerFrame.other turn_frame) open_stream)).effects
      ++ on_frame (ack_of "m-1" "a-1" 7) ∷ []
frame_first_acked_example =
    frame_first_acked turn "a-1" turn_frame activity between open_stream (ground arith)
      turn_is_persistent refl none_recent (omega arith) (omega arith)

post_first_acked_example :
    ((receive
        (ServerFrame.other turn_frame)
        (receive_all between (post_result turn (accepted (some "a-1")) open_stream))).effects
      ≡ (receive_all between (post_result turn (accepted (some "a-1")) open_stream)).effects
        ++ on_frame (ack_of "m-1" "a-1" 7) ∷ on_frame (ServerFrame.other turn_frame) ∷ [])
    × (Map.get "a-1"
          (receive
            (ServerFrame.other turn_frame)
            (receive_all between (post_result turn (accepted (some "a-1")) open_stream))).awaiting
        ≡ none)
post_first_acked_example =
    post_first_acked turn "a-1" turn_frame activity between open_stream (ground arith)
      turn_is_persistent refl none_recent (omega arith)

abbrev no_json : Text → Option ServerFrame
no_json s = none

abbrev run_of_stream : List Step
run_of_stream = Closing.read 1 (105 ∷ []) ∷ Closing.timer ∷ Closing.ended none ∷ []

sse_close_once_example :
    (closes (steps no_json run_of_stream open_stream).effects
      ≡ (if (steps no_json run_of_stream open_stream).closed then 1 else 0))
    × (length (steps no_json run_of_stream open_stream).recent ≤ 500)
sse_close_once_example = sse_close_once no_json run_of_stream open_stream refl refl refl

abbrev channel_up : PhoenixTransport String
channel_up = record {
  has_socket = true;
  writable = true;
  user_id = none;
  token_expiry = none;
  ref = 4;
  join_ref = some 1;
  joined = true;
  opened = true;
  closed = false;
  welcomed = true;
  beating = true;
  connect_timer = false;
  pending_heartbeat = none;
  watermark = some 2;
  retry_after_ms = none;
  effects = [];
}

activity_set_seqs_example :
    ((on_activity_set ("x" ∷ "y" ∷ []) (some 4) false channel_up).effects
      ≡ map activity_of (numbered 2 ("x" ∷ "y" ∷ [])))
    × ((on_activity_set ("x" ∷ "y" ∷ []) (some 4) false channel_up).watermark ≡ some 4)
activity_set_seqs_example = activity_set_seqs 2 "x" ("y" ∷ []) channel_up

rejoin_ignores_example :
    Phoenix.receive (channel (some 1) Phoenix.phx_close) (rejoin 3 channel_up) ≡ rejoin 3 channel_up
rejoin_ignores_example = rejoin_ignores 3 1 Phoenix.phx_close channel_up (omega arith)

-- Between two beats, the answer to another heartbeat, a message of another topic, and a rejoin.
abbrev unanswered : List (Heartbeat.Step String)
unanswered =
    Heartbeat.received (Phoenix.phoenix true (some 4))
    ∷ Heartbeat.received Phoenix.elsewhere
    ∷ Heartbeat.sent (Frames.ClientFrame.sync 2)
    ∷ []

unanswered_beat_closes_example : (beat (Heartbeat.steps unanswered (beat channel_up))).closed ≡ true
unanswered_beat_closes_example =
    unanswered_beat_closes unanswered channel_up refl refl refl refl (refl, (refl, (tt, tt)))
