-- ===== src/Client/Transport/Sse/Session.antt =====
-- sse.ts: `SseTransport`, as the steps of its stream, its requests and its timer. `JSON.parse` is the parameter
-- `parse`, which also answers none where the value is no object with a type; the error that `apiErrorFrom`
-- builds for an answer is given with the answer.
use converger.Prelude.{
  ℕ, ◌+◌, Bool, true, false, not, ◌||◌, Option, none, some, String, List, [], ◌∷◌, ◌++◌, string_eq,
  nat_eq, ◌==◌, if◌then◌else◌, length, ltb,
}
use Prim.Native.String
use converger.Js.Map
use converger.Js.Map.{Map}
use converger.Client.Frames.{
  ServerFrame, ClientFrame, ClientMessage, ActivityFrame, ErrorFrame, is_persistent,
}
use converger.Client.Transport.Sse.Stream.{Text, feed, payload}

-- What `onClose` is given.
pub record TransportClose : Type 0 where
  pub code : ℕ
  pub reason : String
  pub opened : Bool
  pub retry_after_ms : Option ℕ

-- A POST of a turn: who sends, its idempotency key, and the frame whose text, attachments, metadata and reply
-- it carries.
pub record Post : Type 0 where
  pub sender : String
  pub idempotency_key : Option String
  pub message : ClientMessage

pub data Effect : Type 0 where
  on_open : Effect
  on_frame : ServerFrame → Effect
  on_close : TransportClose → Effect
  posted : Post → Effect

-- SseTransport; `liveness` is the time at which the timer fires, `buffer` the variable of #run.
pub record SseTransport : Type 0 where
  pub has_fetch : Bool
  pub conversation_id : Option String
  pub user_id : Option String
  pub token_expiry : Option ℕ
  pub liveness_ms : ℕ
  pub opened : Bool
  pub closed : Bool
  pub recent : Map String ℕ
  pub awaiting : Map String String
  pub liveness : Option ℕ
  pub retry_after_ms : Option ℕ
  pub buffer : Text
  pub effects : List Effect

unfoldable pub emit : Effect → SseTransport → SseTransport
emit e t = record t { effects = t.effects ++ e ∷ [] }

-- #finish
unfoldable pub finish : ℕ → String → SseTransport → SseTransport
unfolding emit
finish code reason t =
    if t.closed
    then t
    else emit
        (on_close (record {
          code = code;
          reason = reason;
          opened = t.opened;
          retry_after_ms = t.retry_after_ms;
        }))
        (record t { closed = true; liveness = none })

-- #touch
unfoldable pub touch : ℕ → SseTransport → SseTransport
touch now t = record t { liveness = some (now + t.liveness_ms) }

-- The timer's callback, at its time.
unfoldable pub liveness_fired : SseTransport → SseTransport
liveness_fired t = finish 4000 "stream silent" (record t { liveness = none })

-- A string that is there and is not empty.
abbrev pub truthy : Option String → Option String
truthy none = none
truthy (some s) = if s == "" then none else some s

-- #run, up to the request; the token's user id is read before.
unfoldable pub run : SseTransport → SseTransport
run t =
    if not t.has_fetch
    then finish 1006 "no fetch implementation" t
    else elim (truthy t.conversation_id) [
      | none ↦ finish 4404 "the SSE stream needs a conversation id" t
      | some id ↦ t
    ]

abbrev pub id_or_empty : Option String → String
id_or_empty none = ""
id_or_empty (some s) = s

-- #emitWelcome
unfoldable pub emit_welcome : SseTransport → SseTransport
emit_welcome t =
    emit
      (on_frame (
        ServerFrame.welcome (record {
          conversation_id = id_or_empty t.conversation_id;
          user_id = t.user_id;
          watermark = none;
          expires_at = t.token_expiry;
          max_in_flight = none;
        })))
      t

-- What the request for the stream came to.
pub data StreamResponse : Type 0 where
  ok : StreamResponse
  refused : ℕ → String → Option ℕ → StreamResponse
  failed : String → StreamResponse

-- The close code for a status.
unfoldable pub status_code : ℕ → ℕ
status_code status =
    if status == 401
    then 4401
    else if status == 403
    then 4403
    else if status == 404
    then 1008
    else 1013

abbrev pub or_option : Option ℕ → Option ℕ → Option ℕ
or_option (some n) m = some n
or_option none m = m

unfoldable pub stream_response : ℕ → StreamResponse → SseTransport → SseTransport
stream_response now (failed reason) t = finish 1006 reason t
stream_response now (refused status message retry) t =
    finish (status_code status) message
      (record t { retry_after_ms = or_option retry t.retry_after_ms })
stream_response now ok t = touch now (emit_welcome (emit on_open (record t { opened = true })))

-- The oldest of more than 500 recent ids is forgotten.
unfoldable pub evict : Map String ℕ → Map String ℕ
evict [] = []
evict ((id, seq) ∷ m) =
    let shorter = Map.delete id ((id, seq) ∷ m) in
    if ltb 500 (length ((id, seq) ∷ m)) then shorter else (id, seq) ∷ m

unfoldable pub remember : String → ℕ → SseTransport → SseTransport
unfolding evict
remember id seq t = record t { recent = evict (Map.set id seq t.recent) }

abbrev pub ack_of : String → String → ℕ → ServerFrame
ack_of client_id id seq =
    ServerFrame.ack (record {
      client_id = client_id;
      id = id;
      seq = some seq;
      timestamp = none;
      duplicate = false;
    })

-- The ack of a turn whose POST was answered before it came on the stream.
unfoldable pub settle : String → ℕ → SseTransport → SseTransport
settle id seq t = elim (Map.get id t.awaiting) [
  | none ↦ t
  | some client_id ↦
      emit (on_frame (ack_of client_id id seq)) (record t { awaiting = Map.delete id t.awaiting })
]

-- The branch of #event for a persistent frame.
unfoldable pub persistent : ActivityFrame → SseTransport → SseTransport
persistent a t = elim a.id [ none ↦ t | some id ↦ settle id a.seq (remember id a.seq t) ]

-- The end of the stream that an error announces.
unfoldable pub close_on : String → SseTransport → SseTransport
close_on code t =
    if code == "token_expired"
    then finish 4401 code t
    else if code == "channel_inactive"
    then finish 4403 code t
    else if code == "unavailable"
    then finish 1012 code t
    else t

-- #event, once the frame is read.
unfoldable pub receive : ServerFrame → SseTransport → SseTransport
receive (ServerFrame.other f) t = elim (is_persistent f) [
  | some a ↦ emit (on_frame (ServerFrame.other f)) (persistent a t)
  | none ↦ emit (on_frame (ServerFrame.other f)) t
]
receive (ServerFrame.error e) t = close_on e.code (
    emit (on_frame (ServerFrame.error e))
      (record t { retry_after_ms = or_option e.retry_after_ms t.retry_after_ms }))
receive frame t = emit (on_frame frame) t

-- #event
unfoldable pub event : (Text → Option ServerFrame) → Text → SseTransport → SseTransport
event parse chunk t = elim (payload chunk) [
  | none ↦ t
  | some text ↦ elim (parse text) [ none ↦ t | some frame ↦ receive frame t ]
]

unfoldable pub events : (Text → Option ServerFrame) → List Text → SseTransport → SseTransport
events parse [] t = t
events parse (chunk ∷ chunks) t = events parse chunks (event parse chunk t)

-- A round of the loop of #run: what a read gave, decoded.
unfoldable pub read_value : (Text → Option ServerFrame) → ℕ → Text → SseTransport → SseTransport
read_value parse now value t =
    let (chunks, left) = feed t.buffer value in
    events parse chunks (record (touch now t) { buffer = left })

-- The end of the loop: the stream's, or an exception's with its message.
unfoldable pub read_ended : Option String → SseTransport → SseTransport
read_ended none t = finish 1006 "stream ended" t
read_ended (some message) t = finish 1006 message t

abbrev pub sender : SseTransport → String
sender t = elim t.user_id [ none ↦ "user" | some id ↦ id ]

-- #post, up to the request.
unfoldable pub post : ClientMessage → SseTransport → SseTransport
post m t = elim (truthy t.conversation_id) [
  | none ↦ t
  | some conversation_id ↦
      let key = String.◌++◌ "ws:" (String.◌++◌ (sender t) (String.◌++◌ ":" m.client_id)) in
      let request : Post = record {
        sender = sender t;
        idempotency_key = if m.client_id == "" then none else some key;
        message = m;
      } in
      if t.has_fetch then emit (posted request) t else t
]

-- The answer to a POST: accepted, with the `id` of its body where that is a string, refused, with its status
-- and error, or none.
pub data PostResponse : Type 0 where
  accepted : Option String → PostResponse
  rejected : ℕ → ErrorFrame → PostResponse
  no_response : PostResponse

unfoldable pub post_code : ℕ → String → String
post_code status code =
    if status == 409
    then "conversation_closed"
    else if status == 422
    then "invalid_message"
    else code

-- An accepted turn is acked at once where its frame came already, and awaited otherwise.
unfoldable pub accept : String → String → SseTransport → SseTransport
accept client_id id t = elim (Map.get id t.recent) [
  | some seq ↦ emit (on_frame (ack_of client_id id seq)) t
  | none ↦ record t { awaiting = Map.set id client_id t.awaiting }
]

-- #post, from the answer on.
unfoldable pub post_result : ClientMessage → PostResponse → SseTransport → SseTransport
unfolding post_code
post_result m (accepted none) t = t
post_result m (accepted (some id)) t = elim (truthy (some m.client_id)) [
  | none ↦ t
  | some client_id ↦ accept client_id id t
]
post_result m (rejected status e) t =
    emit
      (on_frame (
        ServerFrame.error (record e {
          code = post_code status e.code;
          frame_type = some "text";
          client_id = truthy (some m.client_id);
        })))
      t
post_result m no_response t = t

-- The switch of send.
unfoldable pub send_open : ClientFrame → SseTransport → Bool × SseTransport
send_open (ClientFrame.text m) t = (true, post m t)
send_open (ClientFrame.sync w) t = (true, finish 4000 "sync" t)
send_open (ClientFrame.auth token) t = (true, t)
send_open (ClientFrame.typing on) t = (false, t)
send_open (ClientFrame.read w) t = (false, t)

-- send: the answer, and the transport after it.
unfoldable pub send : ClientFrame → SseTransport → Bool × SseTransport
send f t = if not t.opened || t.closed then (false, t) else send_open f t
