-- ===== src/Client/Transport/Phoenix/Heartbeat.antt =====
-- phoenix.ts: a heartbeat that is not answered.
use converger.Prelude.{
  ℕ, suc, ◌≡◌, refl, Bool, true, false, not, ◌&&◌, ◌||◌, Option, none, some, String, List, [], ◌∷◌,
  arith, All, Option-cases, Bool-cases, inl, inr, if◌then◌else◌, nat_eq, option_eq, length,
}
use converger.Client.Frames.{ClientFrame}
use converger.Client.Transport.Phoenix.{
  Push, phx_leave, PhoenixTransport, Event, Effect, Message, unreadable, phoenix, elsewhere,
  channel, phx_reply, activity_set, frame, signal, legacy_error, phx_error, phx_close, unknown,
  seq_at, on_activity, closed_by_client, or_option, refused_code, close_code, is_stale, emit, push,
  join, leave, rejoin, connect_timeout, socket_close, receive, on_event, on_join_reply, hand_on,
  on_activity_set, beat, close, finish, send, send_joined,
}

-- A message is the answer to the heartbeat of a ref.
abbrev pub answers : {A : Type 0} → ℕ → Message A → Bool
answers k unreadable = false
answers k (phoenix is_reply ref) = is_reply && option_eq ref (some k)
answers k elsewhere = false
answers k (channel join_ref e) = false

-- What happens to a transport between two beats.
pub data Step (A : Type 0) : Type 0 where
  received : Message A → Step A
  sent : ClientFrame → Step A
  timed : Step A
  lost : ℕ → String → Option ℕ → Step A
  closed_with : ℕ → String → Step A

module _ {A : Type 0} where
  unfoldable pub step : Step A → PhoenixTransport A → PhoenixTransport A
  step (received m) t = receive m t
  step (sent f) t = (send f t).1
  step timed t = connect_timeout t
  step (lost code reason from_reason) t = socket_close code reason from_reason t
  step (closed_with code reason) t = close code reason t

  unfoldable pub steps : List (Step A) → PhoenixTransport A → PhoenixTransport A
  steps [] t = t
  steps (e ∷ es) t = steps es (step e t)

  -- A step is not the answer to the heartbeat of a ref.
  abbrev pub IsNoAnswer : ℕ → Step A → Type 0
  IsNoAnswer k (received m) = answers k m ≡ false
  IsNoAnswer k (sent f) = Unit
  IsNoAnswer k timed = Unit
  IsNoAnswer k (lost code reason from_reason) = Unit
  IsNoAnswer k (closed_with code reason) = Unit

  -- The transport waits for the answer of a ref, and beats on unless it is closed.
  record Waits (k : ℕ) (t : PhoenixTransport A) : Type 0 where
    pending : t.pending_heartbeat ≡ some k
    alive : (t.closed || t.beating) ≡ true

  -- A change of other fields.
  other-Waits :
      (k : ℕ) (t u : PhoenixTransport A)
      → u.pending_heartbeat ≡ t.pending_heartbeat
      → u.closed ≡ t.closed
      → u.beating ≡ t.beating
      → Waits k t
      → Waits k u
  other-Waits k t u p c b w = record { pending = rw p w.pending; alive = rw (c, b) w.alive }

  if-Waits :
      (k : ℕ) (b : Bool) (t u : PhoenixTransport A)
      → Waits k t
      → Waits k u
      → Waits k (if b then t else u)
  if-Waits k true t u p q = p
  if-Waits k false t u p q = q

  finish-Waits :
      (k code : ℕ) (reason : String) (from_reason : Option ℕ) (t : PhoenixTransport A)
      → Waits k t
      → Waits k (finish code reason from_reason t)
  unfolding finish emit
  finish-Waits k code reason from_reason t w =
      if-Waits k t.closed t _ w (record { pending = w.pending; alive = refl })

  emit-Waits : (k : ℕ) (e : Effect A) (t : PhoenixTransport A) → Waits k t → Waits k (emit e t)
  unfolding emit
  emit-Waits k e t w = other-Waits k t _ refl refl refl w

  close-Waits :
      (k code : ℕ) (reason : String) (t : PhoenixTransport A)
      → Waits k t
      → Waits k (close code reason t)
  unfolding close
  close-Waits k code reason t w =
      let done = finish code reason none t in
      let told = closed_by_client (close_code code) reason in
      let w1 = finish-Waits k code reason none t w in
      if-Waits k (t.has_socket && not t.closed) (emit told done) done (emit-Waits k told done w1) w1

  push-Waits :
      (k : ℕ) (ref : Option ℕ) (p : Push) (t : PhoenixTransport A)
      → Waits k t
      → Waits k (push ref p t).1
  unfolding push emit
  push-Waits k ref p t w = ground (arith, w.pending, w.alive)

  join-Waits :
      (k : ℕ) (watermark : Option ℕ) (t : PhoenixTransport A)
      → Waits k t
      → Waits k (join watermark t)
  unfolding join
  join-Waits k watermark t w = push-Waits k _ _ _ (other-Waits k t _ refl refl refl w)

  leave-Waits : (k : ℕ) (t : PhoenixTransport A) → Waits k t → Waits k (leave t)
  unfolding leave
  leave-Waits k t w = elim (Option-cases t.join_ref) [
    | inl e ↦ simp (e, leave) w
    | inr (ref, e) ↦ simp (e, leave) (push-Waits k (some ref) phx_leave t w)
  ]

  rejoin-Waits :
      (k watermark : ℕ) (t : PhoenixTransport A) → Waits k t → Waits k (rejoin watermark t)
  unfolding rejoin
  rejoin-Waits k watermark t w =
      join-Waits k _ _ (other-Waits k (leave t) _ refl refl refl (leave-Waits k t w))

  hand_on-Waits :
      (k last size index : ℕ) (activities : List A) (t : PhoenixTransport A)
      → Waits k t
      → Waits k (hand_on last size index activities t)
  unfolding hand_on emit
  hand_on-Waits k last size index [] t w = w
  hand_on-Waits k last size index (activity ∷ activities) t w =
      hand_on-Waits k last size (suc index) activities
        (emit (on_activity activity (seq_at last size index)) t)
        (other-Waits k t _ refl refl refl w)

  on_activity_set-Waits :
      (k : ℕ) (activities : List A) (last : Option ℕ) (has_more : Bool) (t : PhoenixTransport A)
      → Waits k t
      → Waits k (on_activity_set activities last has_more t)
  unfolding on_activity_set
  on_activity_set-Waits k activities none has_more t w = w
  on_activity_set-Waits k [] (some last) has_more t w = w
  on_activity_set-Waits k (activity ∷ activities) (some last) has_more t w =
      let all = activity ∷ activities in
      let t0 = hand_on last (length all) 0 all t in
      let t1 = record t0 { watermark = some last } in
      let w1 : Waits k t1 =
        other-Waits k t0 t1 refl refl refl (hand_on-Waits k last (length all) 0 all t w) in
      if-Waits k has_more (rejoin last t1) t1 (rejoin-Waits k last t1 w1) w1

  on_join_reply-Waits :
      (k : ℕ) (ok : Bool) (reason : String) (retry : Option ℕ) (t : PhoenixTransport A)
      → Waits k t
      → Waits k (on_join_reply ok reason retry t)
  unfolding on_join_reply emit
  on_join_reply-Waits k false reason retry t w =
      close-Waits k (refused_code reason) reason
        (record t { retry_after_ms = or_option retry t.retry_after_ms })
        (other-Waits k t _ refl refl refl w)
  on_join_reply-Waits k true reason retry t w =
      let t1 = record t { joined = true; connect_timer = false } in
      if-Waits k t.welcomed t1 _ (other-Waits k t _ refl refl refl w)
        (other-Waits k t _ refl refl refl w)

  on_event-Waits :
      (k : ℕ) (e : Event A) (t : PhoenixTransport A) → Waits k t → Waits k (on_event e t)
  unfolding on_event
  on_event-Waits k (phx_reply ref ok reason retry) t w =
      if-Waits k _ _ _ (on_join_reply-Waits k ok reason retry t w) w
  on_event-Waits k (activity_set activities last has_more) t w =
      on_activity_set-Waits k activities last has_more t w
  on_event-Waits k (frame f) t w = emit-Waits k _ t w
  on_event-Waits k (signal f) t w = emit-Waits k _ t w
  on_event-Waits k (legacy_error f) t w = emit-Waits k _ t w
  on_event-Waits k phx_error t w = close-Waits k 1011 "channel crashed" t w
  on_event-Waits k phx_close t w = close-Waits k 1000 "channel closed" t w
  on_event-Waits k unknown t w = w

  receive-Waits :
      (k : ℕ) (m : Message A) (t : PhoenixTransport A)
      → answers k m ≡ false
      → Waits k t
      → Waits k (receive m t)
  unfolding receive
  receive-Waits k unreadable t h w = w
  receive-Waits k (phoenix is_reply ref) t h w =
      let e : (is_reply && option_eq ref t.pending_heartbeat) ≡ false = rw w.pending h in
      simp (e, receive) w
  receive-Waits k elsewhere t h w = w
  receive-Waits k (channel join_ref e) t h w =
      if-Waits k (is_stale join_ref t.join_ref) t (on_event e t) w (on_event-Waits k e t w)

  send_joined-Waits :
      (k ref : ℕ) (f : ClientFrame) (t : PhoenixTransport A)
      → Waits k t
      → Waits k (send_joined ref f t).1
  unfolding send_joined
  send_joined-Waits k ref (ClientFrame.text m) t w = push-Waits k _ _ t w
  send_joined-Waits k ref (ClientFrame.typing on) t w = push-Waits k _ _ t w
  send_joined-Waits k ref (ClientFrame.read n) t w = push-Waits k _ _ t w
  send_joined-Waits k ref (ClientFrame.sync n) t w = rejoin-Waits k n t w
  send_joined-Waits k ref (ClientFrame.auth token) t w = w

  send-Waits : (k : ℕ) (f : ClientFrame) (t : PhoenixTransport A) → Waits k t → Waits k (send f t).1
  unfolding send
  send-Waits k f t w = elim (Option-cases t.join_ref) [
    | inl e ↦ simp (e, send) w
    | inr (ref, e) ↦ elim (Bool-cases t.joined) [
      | inl j ↦ simp (e, j, send) (send_joined-Waits k ref f t w)
      | inr j ↦ simp (e, j, send) w
    ]
  ]

  step-Waits :
      (k : ℕ) (e : Step A) (t : PhoenixTransport A)
      → IsNoAnswer k e
      → Waits k t
      → Waits k (step e t)
  unfolding step connect_timeout socket_close
  step-Waits k (received m) t h w = receive-Waits k m t h w
  step-Waits k (sent f) t h w = send-Waits k f t w
  step-Waits k timed t h w =
      if-Waits k t.connect_timer _ t (close-Waits k 4000 "connect timeout" t w) w
  step-Waits k (lost code reason from_reason) t h w =
      finish-Waits k code reason from_reason (record t { writable = false })
        (other-Waits k t _ refl refl refl w)
  step-Waits k (closed_with code reason) t h w = close-Waits k code reason t w

  steps-Waits :
      (k : ℕ) (es : List (Step A)) (t : PhoenixTransport A)
      → All (IsNoAnswer k) es
      → Waits k t
      → Waits k (steps es t)
  unfolding steps
  steps-Waits k [] t h w = w
  steps-Waits k (e ∷ es) t h w = steps-Waits k es (step e t) h.1 (step-Waits k e t h.0 w)

  beat-Waits :
      (t : PhoenixTransport A)
      → t.beating ≡ true
      → t.pending_heartbeat ≡ none
      → t.has_socket ≡ true
      → t.writable ≡ true
      → Waits (suc t.ref) (beat t)
  unfolding beat push emit
  beat-Waits t b p s w = record { pending = ground arith; alive = ground arith }

  close_closed :
      (code : ℕ) (reason : String) (t : PhoenixTransport A) → (close code reason t).closed ≡ true
  unfolding close finish emit
  close_closed code reason t = ground arith

  beat_waiting : (k : ℕ) (t : PhoenixTransport A) → Waits k t → (beat t).closed ≡ true
  unfolding beat
  beat_waiting k t w = ground (arith, w.pending, w.alive, close_closed 4000 "heartbeat timeout" t)

  -- Where a beat could send its heartbeat and anything but the answer to that heartbeat follows, in any order, other
  -- replies and messages, sends and rejoins among it, the next beat leaves the transport closed.
  pub unanswered_beat_closes :
      (es : List (Step A)) (t : PhoenixTransport A)
      → t.beating ≡ true
      → t.pending_heartbeat ≡ none
      → t.has_socket ≡ true
      → t.writable ≡ true
      → All (IsNoAnswer (suc t.ref)) es
      → (beat (steps es (beat t))).closed ≡ true
  unanswered_beat_closes es t b p s w h =
      beat_waiting (suc t.ref) (steps es (beat t))
        (steps-Waits (suc t.ref) es (beat t) h (beat-Waits t b p s w))
