-- ===== src/Agent/Socket/Liveness.antt =====
-- socket.ts: runs of a socket and its close handler.
use converger.Prelude.{
  ℕ, suc, ◌+◌, ◌≡◌, refl, true, false, Option, none, String, List, [], ◌∷◌, ◌++◌, if◌then◌else◌,
  arith,
}
use converger.Agent.Socket.{
  AgentSocket, Effect, Message, hello, ping, closed_by_agent, on_open, on_message, on_close,
  perform, send, finish, close, connect, connect_timeout, socket_open, read_message, socket_message,
  socket_close, tick, client_idle_close, or_option, welcome, error, other, unreadable,
}

-- How often the close handler was called.
abbrev pub closes : List Effect → ℕ
closes [] = 0
closes (on_close c ∷ es) = suc (closes es)
closes (hello ∷ es) = closes es
closes (ping n ∷ es) = closes es
closes (closed_by_agent n r ∷ es) = closes es
closes (on_open ∷ es) = closes es
closes (on_message m ∷ es) = closes es

closes-append : (es fs : List Effect) → closes (es ++ fs) ≡ closes es + closes fs
closes-append [] fs = omega arith
closes-append (on_close c ∷ es) fs = omega (arith, closes-append es fs)
closes-append (hello ∷ es) fs = closes-append es fs
closes-append (ping n ∷ es) fs = closes-append es fs
closes-append (closed_by_agent n r ∷ es) fs = closes-append es fs
closes-append (on_open ∷ es) fs = closes-append es fs
closes-append (on_message m ∷ es) fs = closes-append es fs

-- What happens to a socket.
pub data Event : Type 0 where
  connected : Event
  connect_timer : Event
  opened : ℕ → Event
  received : ℕ → Message → Event
  lost : ℕ → String → Option ℕ → Event
  ticked : ℕ → Event
  closed_with : ℕ → String → Event

unfoldable pub step : Event → AgentSocket → AgentSocket
step connected s = connect s
step connect_timer s = connect_timeout s
step (opened now) s = socket_open now s
step (received now m) s = socket_message now m s
step (lost code reason from_reason) s = socket_close code reason from_reason s
step (ticked now) s = tick now s
step (closed_with code reason) s = close code reason s

unfoldable pub run : List Event → AgentSocket → AgentSocket
run [] s = s
run (e ∷ es) s = run es (step e s)

-- One call of the close handler for a socket that is closed, none for another.
abbrev due : AgentSocket → ℕ
due s = if s.closed then 1 else 0

-- The calls of the close handler and the closing go together.
record Agrees (s t : AgentSocket) : Type 0 where
  balance : closes t.effects + due s ≡ closes s.effects + due t

Agrees-trans : {s t u : AgentSocket} → Agrees s t → Agrees t u → Agrees s u
Agrees-trans p q = record { balance = omega (arith, p.balance, q.balance) }

send-Agrees :
    (now : ℕ) (e : Effect) (s : AgentSocket) → closes (e ∷ []) ≡ 0 → Agrees s (send now e s)
unfolding send perform
send-Agrees now e s h = ground (arith, closes-append s.effects (e ∷ []))

finish-Agrees :
    (code : ℕ) (reason : String) (from_reason : Option ℕ) (s : AgentSocket)
    → Agrees s (finish code reason from_reason s)
unfolding finish perform
finish-Agrees code reason from_reason s =
    let report = on_close (record {
      code = code;
      reason = reason;
      opened = s.opened;
      retry_after_ms = or_option from_reason s.retry_after_ms;
    }) in
    ground (arith, closes-append s.effects (report ∷ []))

close-Agrees : (code : ℕ) (reason : String) (s : AgentSocket) → Agrees s (close code reason s)
unfolding close perform
close-Agrees code reason s =
    let done = finish code reason none s in
    ground (
      arith,
      finish-Agrees code reason none s,
      closes-append done.effects (closed_by_agent code reason ∷ []),
    )

socket_open-Agrees : (now : ℕ) (s : AgentSocket) → Agrees s (socket_open now s)
unfolding socket_open perform
socket_open-Agrees now s =
    let up = record s { opened = true; ready = true; last_in = now } in
    ground
      (arith, send-Agrees now hello up, closes-append (send now hello up).effects (on_open ∷ []))

read_message-Agrees :
    (m : Message) (s : AgentSocket)
    → ((read_message m s).effects ≡ s.effects) × ((read_message m s).closed ≡ s.closed)
unfolding read_message
read_message-Agrees (welcome idle) s = ground arith
read_message-Agrees (error retry) s = ground arith
read_message-Agrees other s = (refl, refl)
read_message-Agrees unreadable s = (refl, refl)

socket_message-Agrees :
    (now : ℕ) (m : Message) (s : AgentSocket) → Agrees s (socket_message now m s)
unfolding socket_message perform
socket_message-Agrees now m s =
    let s1 = record s { last_in = now } in
    ground (
      arith,
      read_message-Agrees m s1,
      closes-append (read_message m s1).effects (on_message m ∷ []),
    )

tick-Agrees : (now : ℕ) (s : AgentSocket) → Agrees s (tick now s)
unfolding tick
tick-Agrees now s = ground (
  arith,
  close-Agrees client_idle_close "server silent" s,
  send-Agrees now (ping (suc s.pings)) (record s { pings = suc s.pings }),
)

step-Agrees : (e : Event) (s : AgentSocket) → Agrees s (step e s)
unfolding step connect connect_timeout socket_close
step-Agrees connected s = ground arith
step-Agrees connect_timer s = ground (arith, close-Agrees client_idle_close "connect timeout" s)
step-Agrees (opened now) s = socket_open-Agrees now s
step-Agrees (received now m) s = socket_message-Agrees now m s
step-Agrees (lost code reason from_reason) s =
    ground (arith, finish-Agrees code reason from_reason (record s { ready = false }))
step-Agrees (ticked now) s = tick-Agrees now s
step-Agrees (closed_with code reason) s = close-Agrees code reason s

run-Agrees : (es : List Event) (s : AgentSocket) → Agrees s (run es s)
unfolding run
run-Agrees [] s = record { balance = refl }
run-Agrees (e ∷ es) s = Agrees-trans (step-Agrees e s) (run-Agrees es (step e s))

-- From a new socket, whatever happens, the close handler is called once if the socket is closed by then,
-- and never otherwise.
pub close_once :
    (es : List Event) (s : AgentSocket)
    → s.closed ≡ false
    → s.effects ≡ []
    → closes (run es s).effects ≡ (if (run es s).closed then 1 else 0)
close_once es s new quiet = ground (arith, (run-Agrees es s).balance)
