-- ===== src/Agent/Socket/Silence.antt =====
-- socket.ts: a server that sends nothing.
use converger.Prelude.{
  ℕ, ◌+◌, ◌<◌, ◌≡◌, refl, Bool, true, false, none, Option, String, List, [], ◌∷◌, ◌||◌,
  if◌then◌else◌, arith, All,
}
use converger.Agent.Socket.{
  AgentSocket, client_idle_close, perform, send, finish, close, connect, connect_timeout,
  socket_close, tick,
}
use converger.Agent.Socket.Liveness.{
  Event, connected, connect_timer, opened, received, lost, ticked, closed_with, step, run,
}

-- No message comes, and the WebSocket is not opened again.
abbrev pub IsSilent : Event → Type 0
IsSilent connected = Unit
IsSilent connect_timer = Unit
IsSilent (opened now) = ⊥
IsSilent (received now m) = ⊥
IsSilent (lost code reason from_reason) = Unit
IsSilent (ticked now) = Unit
IsSilent (closed_with code reason) = Unit

-- The times of a socket are those of another, and its interval runs unless it is closed.
record Waits (s t : AgentSocket) : Type 0 where
  same_in : t.last_in ≡ s.last_in
  same_idle : t.idle_timeout_ms ≡ s.idle_timeout_ms
  same_grace : t.liveness_grace_ms ≡ s.liveness_grace_ms
  alive : (t.closed || t.ticking) ≡ true

finish-Waits :
    (code : ℕ) (reason : String) (from_reason : Option ℕ) (s t : AgentSocket)
    → Waits s t
    → Waits s (finish code reason from_reason t)
unfolding finish perform
finish-Waits code reason from_reason s t w =
    ground (arith, w.same_in, w.same_idle, w.same_grace, w.alive)

close-Waits :
    (code : ℕ) (reason : String) (s t : AgentSocket) → Waits s t → Waits s (close code reason t)
unfolding close perform
close-Waits code reason s t w =
    let f = finish-Waits code reason none s t w in
    ground (arith, f.same_in, f.same_idle, f.same_grace, f.alive)

tick-Waits : (now : ℕ) (s t : AgentSocket) → Waits s t → Waits s (tick now t)
unfolding tick send perform
tick-Waits now s t w =
    let c = close-Waits client_idle_close "server silent" s t w in
    ground (
      arith, w.same_in, w.same_idle, w.same_grace, w.alive, c.same_in, c.same_idle, c.same_grace,
      c.alive,
    )

if-Waits : (b : Bool) (s t u : AgentSocket) → Waits s t → Waits s u → Waits s (if b then t else u)
if-Waits true s t u p q = p
if-Waits false s t u p q = q

step-Waits : (e : Event) (s t : AgentSocket) → IsSilent e → Waits s t → Waits s (step e t)
unfolding step connect connect_timeout socket_close
step-Waits connected s t q w = record {
  same_in = w.same_in;
  same_idle = w.same_idle;
  same_grace = w.same_grace;
  alive = w.alive;
}
step-Waits connect_timer s t q w =
    let c = close-Waits client_idle_close "connect timeout" s t w in
    if-Waits t.connect_timer s (close client_idle_close "connect timeout" t) t c w
step-Waits (opened now) s t q w = elim q [ ]
step-Waits (received now m) s t q w = elim q [ ]
step-Waits (lost code reason from_reason) s t q w =
    finish-Waits code reason from_reason s (record t { ready = false })
      (record {
        same_in = w.same_in;
        same_idle = w.same_idle;
        same_grace = w.same_grace;
        alive = w.alive;
      })
step-Waits (ticked now) s t q w = tick-Waits now s t w
step-Waits (closed_with code reason) s t q w = close-Waits code reason s t w

run-Waits : (es : List Event) (s t : AgentSocket) → All IsSilent es → Waits s t → Waits s (run es t)
unfolding run
run-Waits [] s t q w = w
run-Waits (e ∷ es) s t q w = run-Waits es s (step e t) q.1 (step-Waits e s t q.0 w)

finish_closed :
    (code : ℕ) (reason : String) (from_reason : Option ℕ) (s : AgentSocket)
    → (finish code reason from_reason s).closed ≡ true
unfolding finish perform
finish_closed code reason from_reason s = ground arith

close_closed : (code : ℕ) (reason : String) (s : AgentSocket) → (close code reason s).closed ≡ true
unfolding close perform
close_closed code reason s = ground (arith, finish_closed code reason none s)

tick_late :
    (now : ℕ) (s : AgentSocket)
    → (s.closed || s.ticking) ≡ true
    → s.last_in + s.idle_timeout_ms + s.liveness_grace_ms < now
    → (tick now s).closed ≡ true
unfolding tick send
tick_late now s alive late = ground (arith, close_closed client_idle_close "server silent" s)

-- From a socket whose interval runs: whatever events other than a message or an opening follow, and in any order, among
-- them the pings that the agent sends, a tick that comes later than the idle timeout and the grace after the last
-- message leaves the socket closed.
pub silent_server_closed :
    (es : List Event) (now : ℕ) (s : AgentSocket)
    → All IsSilent es
    → s.ticking ≡ true
    → s.last_in + s.idle_timeout_ms + s.liveness_grace_ms < now
    → (tick now (run es s)).closed ≡ true
silent_server_closed es now s silent on late =
    let w : Waits s (run es s) =
      run-Waits es s s silent
        (record { same_in = refl; same_idle = refl; same_grace = refl; alive = ground arith }) in
    tick_late now (run es s) w.alive (ground (arith, w.same_in, w.same_idle, w.same_grace))
