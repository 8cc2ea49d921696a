-- ===== src/Agent/Socket.antt =====
-- packages/agent-ts/src/socket.ts: `AgentSocket`, one WebSocket with its liveness. The texts of messages
-- are JSON, of which the fields that the socket reads are given.
pub mod Liveness
pub mod Silence
use converger.Prelude.{
  ℕ, suc, ◌+◌, ◌-◌, ◌*◌, ◌||◌, ◌&&◌, Bool, true, false, not, Option, none, some, String, List, [],
  ◌∷◌, ◌++◌, if◌then◌else◌, leb, ltb,
}

-- CLIENT_IDLE_CLOSE
abbrev pub client_idle_close : ℕ
client_idle_close = 4000

-- SocketClose
pub record SocketClose : Type 0 where
  pub code : ℕ
  pub reason : String
  pub opened : Bool
  pub retry_after_ms : Option ℕ

-- What a message is, as far as the socket reads it: a welcome with its `idleTimeoutMs`, an error with its
-- `retryAfterMs`, another JSON object, or no JSON object.
pub data Message : Type 0 where
  welcome error : Option ℕ → Message
  other : Message
  unreadable : Message

-- What goes out: on the wire, to the WebSocket, and to the handlers.
pub data Effect : Type 0 where
  hello : Effect
  ping : ℕ → Effect
  closed_by_agent : ℕ → String → Effect
  on_open : Effect
  on_message : Message → Effect
  on_close : SocketClose → Effect

-- AgentSocket; `ready` tells whether the WebSocket is open.
pub record AgentSocket : Type 0 where
  pub has_socket : Bool
  pub ready : Bool
  pub opened : Bool
  pub closed : Bool
  pub welcomed : Bool
  pub ticking : Bool
  pub connect_timer : Bool
  pub idle_timeout_ms : ℕ
  pub liveness_grace_ms : ℕ
  pub last_in : ℕ
  pub last_out : ℕ
  pub pings : ℕ
  pub retry_after_ms : Option ℕ
  pub effects : List Effect

unfoldable pub perform : Effect → AgentSocket → AgentSocket
perform e s = record s { effects = s.effects ++ e ∷ [] }

-- send, of a message that the WebSocket takes.
unfoldable pub send : ℕ → Effect → AgentSocket → AgentSocket
send now e s =
    if s.closed || (not s.has_socket || not s.ready)
    then s
    else record (perform e s) { last_out = now }

abbrev pub or_option : Option ℕ → Option ℕ → Option ℕ
or_option (some n) m = some n
or_option none m = m

-- #finish; `from_reason` is what `retryAfterFromReason` reads in the reason.
unfoldable pub finish : ℕ → String → Option ℕ → AgentSocket → AgentSocket
finish code reason from_reason s =
    if s.closed
    then s
    else perform
        (on_close (record {
          code = code;
          reason = reason;
          opened = s.opened;
          retry_after_ms = or_option from_reason s.retry_after_ms;
        }))
        (record s { closed = true; ticking = false; connect_timer = false })

-- close
unfoldable pub close : ℕ → String → AgentSocket → AgentSocket
close code reason s =
    let done = finish code reason none s in
    if s.has_socket && not s.closed then perform (closed_by_agent code reason) done else done

-- connect, where the WebSocket could be made.
unfoldable pub connect : AgentSocket → AgentSocket
connect s = record s { has_socket = true; connect_timer = true }

-- The connect timer's callback.
unfoldable pub connect_timeout : AgentSocket → AgentSocket
connect_timeout s = if s.connect_timer then close client_idle_close "connect timeout" s else s

-- socket.onopen, which #finish takes away.
unfoldable pub socket_open : ℕ → AgentSocket → AgentSocket
socket_open now s =
    if s.closed
    then s
    else perform on_open
        (record (send now hello (record s { opened = true; ready = true; last_in = now })) {
          ticking = true;
        })

-- What a message changes before it is handed on.
unfoldable pub read_message : Message → AgentSocket → AgentSocket
read_message (welcome idle) s =
    let s1 = record s { welcomed = true; connect_timer = false } in
    elim idle [
      | none ↦ s1
      | some ms ↦ record s1 { idle_timeout_ms = if ltb 0 ms then ms else s.idle_timeout_ms }
    ]
read_message (error retry) s = record s { retry_after_ms = or_option retry s.retry_after_ms }
read_message other s = s
read_message unreadable s = s

abbrev pub is_readable : Message → Bool
is_readable unreadable = false
is_readable _ = true

-- socket.onmessage
unfoldable pub socket_message : ℕ → Message → AgentSocket → AgentSocket
socket_message now m s =
    if s.closed
    then s
    else let s1 = record s { last_in = now } in
      if is_readable m then perform (on_message m) (read_message m s1) else s1

-- socket.onclose
unfoldable pub socket_close : ℕ → String → Option ℕ → AgentSocket → AgentSocket
socket_close code reason from_reason s = finish code reason from_reason (record s { ready = false })

-- #tick, while the interval runs.
unfoldable pub tick : ℕ → AgentSocket → AgentSocket
tick now s =
    if not s.ticking
    then s
    else if ltb (s.idle_timeout_ms + s.liveness_grace_ms) (now - s.last_in)
    then close client_idle_close "server silent" s
    else if leb s.idle_timeout_ms (2 * (now - s.last_out))
    then send now (ping (suc s.pings)) (record s { pings = suc s.pings })
    else s
