-- ===== src/Client/Transport/Sse/Closing.antt =====
-- sse.ts: the steps of a transport in any order, its close handler, and the ids it remembers.
use converger.Prelude.{
  ℕ, ◌≤◌, ◌≡◌, refl, true, false, Option, none, some, String, List, [], ◌∷◌, arith, string_eq,
  if◌then◌else◌, length, Option-cases, Bool-cases, not, ◌||◌, inl, inr,
}
use converger.Js.Map
use converger.Js.Map.{Map}
use converger.Client.Frames.{ServerFrame, ClientFrame, ClientMessage}
use converger.Client.Transport.Sse.Stream.{Text, feed, payload}
use converger.Client.Transport.Sse.Session.{
  SseTransport, on_open, on_frame, emit, finish, touch, liveness_fired, run, emit_welcome,
  StreamResponse, ok, refused, failed, status_code, stream_response, ack_of, event, events,
  read_value, read_ended, post, PostResponse, accepted, rejected, no_response, accept, post_result,
  send_open, send, or_option, truthy,
}
use converger.Client.Transport.Sse.Agreement.{
  closes, Agrees, Agrees-refl, Agrees-trans, same-Agrees, emit-Agrees, finish-Agrees,
  receive-Agrees, if-Agrees,
}

-- What happens to a transport.
pub data Step : Type 0 where
  started : Step
  answered : ℕ → StreamResponse → Step
  read : ℕ → Text → Step
  ended : Option String → Step
  timer : Step
  sent : ClientFrame → Step
  post_answered : ClientMessage → PostResponse → Step
  closed_with : ℕ → String → Step

unfoldable pub step : (Text → Option ServerFrame) → Step → SseTransport → SseTransport
step parse started t = run t
step parse (answered now r) t = stream_response now r t
step parse (read now value) t = read_value parse now value t
step parse (ended message) t = read_ended message t
step parse timer t = liveness_fired t
step parse (sent f) t = (send f t).1
step parse (post_answered m r) t = post_result m r t
step parse (closed_with code reason) t = finish code reason t

unfoldable pub steps : (Text → Option ServerFrame) → List Step → SseTransport → SseTransport
steps parse [] t = t
steps parse (s ∷ ss) t = steps parse ss (step parse s t)

event-Agrees :
    (parse : Text → Option ServerFrame) (chunk : Text) (t : SseTransport)
    → Agrees t (event parse chunk t)
unfolding event
event-Agrees parse chunk t = elim (Option-cases (payload chunk)) [
  | inl e ↦ rw (e, event) (Agrees-refl t)
  | inr (text, e) ↦ elim (Option-cases (parse text)) [
    | inl n ↦ rw (e, n, event) (Agrees-refl t)
    | inr (f, n) ↦ rw (e, n, event) (receive-Agrees f t)
  ]
]

events-Agrees :
    (parse : Text → Option ServerFrame) (chunks : List Text) (t : SseTransport)
    → Agrees t (events parse chunks t)
unfolding events
events-Agrees parse [] t = Agrees-refl t
events-Agrees parse (chunk ∷ chunks) t =
    Agrees-trans (event-Agrees parse chunk t) (events-Agrees parse chunks (event parse chunk t))

read_value-Agrees :
    (parse : Text → Option ServerFrame) (now : ℕ) (value : Text) (t : SseTransport)
    → Agrees t (read_value parse now value t)
unfolding read_value touch
read_value-Agrees parse now value t =
    let t1 = record (touch now t) { buffer = (feed t.buffer value).1 } in
    Agrees-trans (same-Agrees t t1 refl refl refl) (events-Agrees parse (feed t.buffer value).0 t1)

emit_welcome-Agrees : (t : SseTransport) → Agrees t (emit_welcome t)
unfolding emit_welcome
emit_welcome-Agrees t = emit-Agrees _ t refl

stream_response-Agrees :
    (now : ℕ) (r : StreamResponse) (t : SseTransport) → Agrees t (stream_response now r t)
unfolding stream_response touch
stream_response-Agrees now (failed reason) t = finish-Agrees 1006 reason t
stream_response-Agrees now (refused status message retry) t =
    let t1 = record t { retry_after_ms = or_option retry t.retry_after_ms } in
    Agrees-trans (same-Agrees t t1 refl refl refl) (finish-Agrees (status_code status) message t1)
stream_response-Agrees now ok t =
    let t1 = record t { opened = true } in
    let up = emit_welcome (emit on_open t1) in
    Agrees-trans
      (Agrees-trans (Agrees-trans (same-Agrees t t1 refl refl refl) (emit-Agrees on_open t1 refl))
        (emit_welcome-Agrees (emit on_open t1)))
      (same-Agrees up (touch now up) refl refl refl)

run-Agrees : (t : SseTransport) → Agrees t (run t)
unfolding run
run-Agrees t = elim (Option-cases (truthy t.conversation_id)) [
  | inl e ↦
      rw (e, run)
        (if-Agrees (not t.has_fetch) (finish-Agrees 1006 "no fetch implementation" t)
          (finish-Agrees 4404 "the SSE stream needs a conversation id" t))
  | inr (id, e) ↦
      rw (e, run)
        (if-Agrees (not t.has_fetch) (finish-Agrees 1006 "no fetch implementation" t)
          (Agrees-refl t))
]

post-Agrees : (m : ClientMessage) (t : SseTransport) → Agrees t (post m t)
unfolding post
post-Agrees m t = elim (Option-cases (truthy t.conversation_id)) [
  | inl e ↦ rw (e, post) (Agrees-refl t)
  | inr (id, e) ↦ rw (e, post) (if-Agrees t.has_fetch (emit-Agrees _ t refl) (Agrees-refl t))
]

send_open-Agrees : (f : ClientFrame) (t : SseTransport) → Agrees t (send_open f t).1
unfolding send_open
send_open-Agrees (ClientFrame.text m) t = post-Agrees m t
send_open-Agrees (ClientFrame.sync w) t = finish-Agrees 4000 "sync" t
send_open-Agrees (ClientFrame.auth token) t = Agrees-refl t
send_open-Agrees (ClientFrame.typing on) t = Agrees-refl t
send_open-Agrees (ClientFrame.read w) t = Agrees-refl t

send-Agrees : (f : ClientFrame) (t : SseTransport) → Agrees t (send f t).1
unfolding send
send-Agrees f t = elim (Bool-cases (not t.opened || t.closed)) [
  | inl e ↦ rw e (Agrees-refl t)
  | inr e ↦ rw e (send_open-Agrees f t)
]

accept-Agrees : (client_id id : String) (t : SseTransport) → Agrees t (accept client_id id t)
unfolding accept
accept-Agrees client_id id t = elim (Option-cases (Map.get id t.recent)) [
  | inl e ↦
      rw (e, accept)
        (same-Agrees t (record t { awaiting = Map.set id client_id t.awaiting }) refl refl refl)
  | inr (seq, e) ↦ rw (e, accept) (emit-Agrees (on_frame (ack_of client_id id seq)) t refl)
]

post_result-Agrees :
    (m : ClientMessage) (r : PostResponse) (t : SseTransport) → Agrees t (post_result m r t)
unfolding post_result
post_result-Agrees m (accepted none) t = Agrees-refl t
post_result-Agrees m (accepted (some id)) t = elim (Option-cases (truthy (some m.client_id))) [
  | inl e ↦ rw (e, post_result) (Agrees-refl t)
  | inr (client_id, e) ↦ rw (e, post_result) (accept-Agrees client_id id t)
]
post_result-Agrees m (rejected status e) t = emit-Agrees _ t refl
post_result-Agrees m no_response t = Agrees-refl t

step-Agrees :
    (parse : Text → Option ServerFrame) (s : Step) (t : SseTransport) → Agrees t (step parse s t)
unfolding step
step-Agrees parse started t = run-Agrees t
step-Agrees parse (answered now r) t = stream_response-Agrees now r t
step-Agrees parse (read now value) t = read_value-Agrees parse now value t
step-Agrees parse (ended none) t = unfold read_ended in finish-Agrees 1006 "stream ended" t
step-Agrees parse (ended (some message)) t = unfold read_ended in finish-Agrees 1006 message t
step-Agrees parse timer t =
    unfold liveness_fired in
    let t1 = record t { liveness = none } in
    Agrees-trans (same-Agrees t t1 refl refl refl) (finish-Agrees 4000 "stream silent" t1)
step-Agrees parse (sent f) t = send-Agrees f t
step-Agrees parse (post_answered m r) t = post_result-Agrees m r t
step-Agrees parse (closed_with code reason) t = finish-Agrees code reason t

steps-Agrees :
    (parse : Text → Option ServerFrame) (ss : List Step) (t : SseTransport)
    → Agrees t (steps parse ss t)
unfolding steps
steps-Agrees parse [] t = Agrees-refl t
steps-Agrees parse (s ∷ ss) t =
    Agrees-trans (step-Agrees parse s t) (steps-Agrees parse ss (step parse s t))

-- From a new transport, whatever happens and in any order, the close handler is called once if the transport is
-- closed by then and never otherwise, and at most 500 ids are remembered.
pub sse_close_once :
    (parse : Text → Option ServerFrame) (ss : List Step) (t : SseTransport)
    → t.closed ≡ false
    → t.effects ≡ []
    → t.recent ≡ []
    → (closes (steps parse ss t).effects ≡ (if (steps parse ss t).closed then 1 else 0))
      × (length (steps parse ss t).recent ≤ 500)
sse_close_once parse ss t new quiet empty =
    let agrees = steps-Agrees parse ss t in
    (ground (arith, agrees.balance), agrees.few (ground arith))
