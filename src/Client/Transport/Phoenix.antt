-- ===== src/Client/Transport/Phoenix.antt =====
-- packages/client-ts/src/transport/phoenix.ts: `PhoenixTransport`, the Phoenix Channels binding. Refs are the numbers
-- whose texts the wire carries, messages are given as their JSON was read, and an activity is a value of the type `A`,
-- which `activityToFrame` turns into a frame.
pub mod Joins
pub mod Seqs
pub mod Heartbeat
use converger.Prelude.{
  ℕ, suc, ◌+◌, ◌-◌, ◌*◌, Bool, true, false, not, ◌&&◌, ◌||◌, Option, none, some, String, List, [],
  ◌∷◌, ◌++◌, string_eq, nat_eq, ◌==◌, option_eq, if◌then◌else◌, length, leb,
}
use converger.Client.Frames.{ServerFrame, ClientFrame, ClientMessage, JsNumber}

-- What `onClose` is given.
pub record TransportClose : Type 0 where
  pub code : ℕ
  pub reason : String
  pub opened : Bool
  pub retry_after_ms : Option ℕ

-- What is pushed to the server: its event and payload.
pub data Push : Type 0 where
  phx_join : Option ℕ → Push
  phx_leave heartbeat : Push
  text : ClientMessage → Push
  typing : Bool → Push
  read : ℕ → Push

module _ (A : Type 0) where
  -- What goes out: on the wire, with its join ref and ref, to the WebSocket, and to the handlers.
  pub data Effect : Type 0 where
    pushed : Option ℕ → ℕ → Push → Effect
    on_open : Effect
    on_frame : ServerFrame → Effect
    on_activity : A → JsNumber → Effect
    on_welcome : Option String → Option ℕ → Effect
    on_close : TransportClose → Effect
    closed_by_client : ℕ → String → Effect

  -- PhoenixTransport; `writable` tells whether there is a socket that is open.
  pub record PhoenixTransport : Type 0 where
    pub has_socket : Bool
    pub writable : Bool
    pub user_id : Option String
    pub token_expiry : Option ℕ
    pub ref : ℕ
    pub join_ref : Option ℕ
    pub joined : Bool
    pub opened : Bool
    pub closed : Bool
    pub welcomed : Bool
    pub beating : Bool
    pub connect_timer : Bool
    pub pending_heartbeat : Option ℕ
    pub watermark : Option ℕ
    pub retry_after_ms : Option ℕ
    pub effects : List Effect

  -- A message on the transport's topic.
  pub data Event : Type 0 where
    phx_reply : Option ℕ → Bool → String → Option ℕ → Event
    activity_set : List A → Option ℕ → Bool → Event
    frame : ServerFrame → Event
    signal : ServerFrame → Event
    legacy_error : ServerFrame → Event
    phx_error phx_close unknown : Event

  -- What a message is: on the topic "phoenix", with its event's and its own ref, on another topic, or on the
  -- transport's, with its join ref.
  pub data Message : Type 0 where
    unreadable : Message
    phoenix : Bool → Option ℕ → Message
    elsewhere : Message
    channel : Option ℕ → Event → Message

abbrev pub or_option : Option ℕ → Option ℕ → Option ℕ
or_option (some n) m = some n
or_option none m = m

abbrev pub close_code : ℕ → ℕ
close_code code = if leb 4000 code || (code == 1000) then code else 1000

unfoldable pub refused_code : String → ℕ
refused_code reason =
    if reason == "unauthorized" then 4401 else if reason == "unavailable" then 1013 else 4400

-- The seq of an activity of a set: `last - activities.length + 1 + index`.
unfoldable pub seq_at : ℕ → ℕ → ℕ → JsNumber
seq_at last size index =
    if leb size (last + 1 + index)
    then JsNumber.nat (last + 1 + index - size)
    else JsNumber.negative_integer (size - (last + 1 + index))

-- `joinRef !== null && joinRef !== this.#joinRef`
abbrev pub is_stale : Option ℕ → Option ℕ → Bool
is_stale none current = false
is_stale (some ref) current = not (option_eq (some ref) current)

abbrev pub is_pushed : Option ℕ → Bool
is_pushed none = false
is_pushed (some ref) = true

module _ {A : Type 0} where
  unfoldable pub emit : Effect A → PhoenixTransport A → PhoenixTransport A
  emit e t = record t { effects = t.effects ++ e ∷ [] }

  -- #finish; `from_reason` is what `retryAfterFromReason` reads in the reason.
  unfoldable pub finish : ℕ → String → Option ℕ → PhoenixTransport A → PhoenixTransport A
  unfolding emit
  finish code reason from_reason t =
      if t.closed
      then t
      else emit
          (on_close (record {
            code = code;
            reason = reason;
            opened = t.opened;
            retry_after_ms = or_option from_reason t.retry_after_ms;
          }))
          (record t { closed = true; beating = false; connect_timer = false })

  -- close, for a reason that holds no delay.
  unfoldable pub close : ℕ → String → PhoenixTransport A → PhoenixTransport A
  close code reason t =
      let done = finish code reason none t in
      if t.has_socket && not t.closed
      then emit (closed_by_client (close_code code) reason) done
      else done

  -- #push: the ref where the socket takes the message.
  unfoldable pub push : Option ℕ → Push → PhoenixTransport A → Option ℕ × PhoenixTransport A
  push join_ref p t =
      let ref = suc t.ref in
      if t.has_socket && t.writable
      then (some ref, emit (pushed join_ref ref p) (record t { ref = ref }))
      else (none, t)

  -- #join
  unfoldable pub join : Option ℕ → PhoenixTransport A → PhoenixTransport A
  join watermark t =
      let ref = suc t.ref in
      (push (some ref) (phx_join watermark) (record t { joined = false; join_ref = some ref })).1

  -- The leave of #rejoin.
  unfoldable pub leave : PhoenixTransport A → PhoenixTransport A
  leave t = elim t.join_ref [ none ↦ t | some ref ↦ (push (some ref) phx_leave t).1 ]

  -- #rejoin
  unfoldable pub rejoin : ℕ → PhoenixTransport A → PhoenixTransport A
  rejoin watermark t = join (some watermark) (record (leave t) { watermark = some watermark })

  -- connect: the conversation's id, and the message of the exception where no WebSocket could be made.
  unfoldable pub connect : Option String → Option String → PhoenixTransport A → PhoenixTransport A
  connect none error t = finish 4404 "the Phoenix binding needs a conversation id" none t
  connect (some id) (some message) t = finish 1006 message none t
  connect (some id) none t = record t { has_socket = true; connect_timer = true }

  -- The connect timer's callback.
  unfoldable pub connect_timeout : PhoenixTransport A → PhoenixTransport A
  connect_timeout t = if t.connect_timer then close 4000 "connect timeout" t else t

  -- socket.onclose
  unfoldable pub socket_close : ℕ → String → Option ℕ → PhoenixTransport A → PhoenixTransport A
  socket_close code reason from_reason t =
      finish code reason from_reason (record t { writable = false })

  -- socket.onopen, which #finish takes away.
  unfoldable pub socket_open : PhoenixTransport A → PhoenixTransport A
  socket_open t =
      let up = emit on_open (record t { opened = true; writable = true }) in
      if t.closed then t else record (join t.watermark up) { beating = true }

  -- #beat, while the interval runs.
  unfoldable pub beat : PhoenixTransport A → PhoenixTransport A
  beat t = if not t.beating then t else elim t.pending_heartbeat [
    | some ref ↦ close 4000 "heartbeat timeout" t
    | none ↦ let (ref, t1) = push none heartbeat t in record t1 { pending_heartbeat = ref }
  ]

  -- #onJoinReply
  unfoldable pub on_join_reply : Bool → String → Option ℕ → PhoenixTransport A → PhoenixTransport A
  on_join_reply false reason retry t =
      close (refused_code reason) reason
        (record t { retry_after_ms = or_option retry t.retry_after_ms })
  on_join_reply true reason retry t =
      let t1 = record t { joined = true; connect_timer = false } in
      if t.welcomed
      then t1
      else emit (on_welcome t.user_id t.token_expiry) (record t1 { welcomed = true })

  -- The loop of #onActivitySet, from an index on.
  unfoldable pub hand_on : ℕ → ℕ → ℕ → List A → PhoenixTransport A → PhoenixTransport A
  hand_on last size index [] t = t
  hand_on last size index (activity ∷ activities) t =
      hand_on last size (suc index) activities
        (emit (on_activity activity (seq_at last size index)) t)

  -- #onActivitySet, with the set's watermark as `parseWatermark` reads it.
  unfoldable pub on_activity_set :
      List A → Option ℕ → Bool → PhoenixTransport A → PhoenixTransport A
  on_activity_set activities none has_more t = t
  on_activity_set [] (some last) has_more t = t
  on_activity_set (activity ∷ activities) (some last) has_more t =
      let all = activity ∷ activities in
      let t1 = record (hand_on last (length all) 0 all t) { watermark = some last } in
      if has_more then rejoin last t1 else t1

  -- The switch of #receive.
  unfoldable pub on_event : Event A → PhoenixTransport A → PhoenixTransport A
  on_event (phx_reply ref ok reason retry) t =
      let answered = on_join_reply ok reason retry t in
      if option_eq ref t.join_ref then answered else t
  on_event (activity_set activities last has_more) t = on_activity_set activities last has_more t
  on_event (frame f) t = emit (on_frame f) t
  on_event (signal f) t = emit (on_frame f) t
  on_event (legacy_error f) t = emit (on_frame f) t
  on_event phx_error t = close 1011 "channel crashed" t
  on_event phx_close t = close 1000 "channel closed" t
  on_event unknown t = t

  -- #receive
  unfoldable pub receive : Message A → PhoenixTransport A → PhoenixTransport A
  receive unreadable t = t
  receive (phoenix is_reply ref) t =
      if is_reply && option_eq ref t.pending_heartbeat
      then record t { pending_heartbeat = none }
      else t
  receive elsewhere t = t
  receive (channel join_ref e) t = if is_stale join_ref t.join_ref then t else on_event e t

  -- The switch of send.
  unfoldable pub send_joined : ℕ → ClientFrame → PhoenixTransport A → Bool × PhoenixTransport A
  send_joined ref (ClientFrame.text m) t =
      let (r, t1) = push (some ref) (text m) t in (is_pushed r, t1)
  send_joined ref (ClientFrame.typing on) t =
      let (r, t1) = push (some ref) (typing on) t in (is_pushed r, t1)
  send_joined ref (ClientFrame.read w) t =
      let (r, t1) = push (some ref) (read w) t in (is_pushed r, t1)
  send_joined ref (ClientFrame.sync w) t = (true, rejoin w t)
  send_joined ref (ClientFrame.auth token) t = (true, t)

  -- send: the answer, and the transport after it.
  unfoldable pub send : ClientFrame → PhoenixTransport A → Bool × PhoenixTransport A
  send f t = elim t.join_ref [
    | none ↦ (false, t)
    | some ref ↦ if t.joined then send_joined ref f t else (false, t)
  ]
