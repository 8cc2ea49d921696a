-- ===== src/Client/Conversation/State.antt =====
-- packages/client-ts/src/conversation.ts: the state of a session, what it reports, and the helpers
-- that every part uses. A promise of `send` is known by its clientId.
use converger.Prelude.{
  ℕ, Bool, true, false, not, ◌&&◌, Option, none, some, String, List, [], ◌∷◌, ◌++◌, ◌==◌, string_eq,
  nat_eq, if◌then◌else◌,
}
use converger.Js.Set.{Set}
use converger.Js.Map.{Map}
use converger.Backoff.{ResolvedReconnect, Fraction}
use converger.Client.Frames.{Json, WelcomeData, ActivityFrame, OtherFrame, ClientFrame}
use converger.Client.Outbox.Store.{Store}
use converger.Client.Outbox.Store
use converger.Client.Receive.Watermark.{Receive}
use converger.Client.Token.{TokenManager, TokenRequestReason}

-- ConnectionState
pub data ConnectionState : Type 0 where
  idle connecting open_ reconnecting closed : ConnectionState

abbrev pub is_open : ConnectionState → Bool
is_open open_ = true
is_open _ = false

abbrev pub is_reconnecting : ConnectionState → Bool
is_reconnecting reconnecting = true
is_reconnecting _ = false

abbrev pub same_connection : ConnectionState → ConnectionState → Bool
same_connection idle idle = true
same_connection connecting connecting = true
same_connection open_ open_ = true
same_connection reconnecting reconnecting = true
same_connection closed closed = true
same_connection _ _ = false

-- What a transport factory gives: its name and capabilities (transport/types.ts).
pub record TransportKind : Type 0 where
  pub name : String
  pub auth : Bool
  pub sync : Bool
  pub signals : Bool

-- A transport that was handed to `connect`; `attempt` tells one from another.
pub record Transport : Type 0 where
  pub attempt : ℕ
  pub kind : TransportKind

-- TransportClose
pub record TransportClose : Type 0 where
  pub code : ℕ
  pub opened : Bool
  pub retry_after_ms : Option ℕ

-- A handle that `setTimeout` gave: its delay, what its callback captured, and whether it is still to
-- fire. `clearTimeout` leaves the handle.
pub record Timer : Type 0 where
  pub delay : ℕ
  pub argument : ℕ
  pub live : Bool

-- clearTimeout, where the handle is defined.
abbrev pub clear_timer : Option Timer → Option Timer
clear_timer none = none
clear_timer (some t) = some (record t { live = false })

abbrev pub start_timer : ℕ → ℕ → Option Timer
start_timer delay argument = some (record { delay = delay; argument = argument; live = true })

-- SendResult
pub record SendResult : Type 0 where
  pub client_id : String
  pub id : String
  pub seq : Option ℕ
  pub timestamp : Option ℕ
  pub duplicate : Bool

-- ConnectionStateChange
pub record ConnectionStateChange : Type 0 where
  pub state : ConnectionState
  pub previous : ConnectionState
  pub attempt : ℕ
  pub delay_ms : Option ℕ
  pub close : Option TransportClose
  pub error : Option String

-- What `transport.connect` is given.
pub record ConnectParams : Type 0 where
  pub conversation_id : Option String
  pub user_id : Option String
  pub watermark : Option ℕ

-- What a session does outside itself: events, promises settled, calls of the transport other than
-- `send`, token requests, `onDispose`.
pub data Output : Type 0 where
  activity : ActivityFrame → Output
  typing : ActivityFrame → Output
  transient_typing : OtherFrame → Output
  delivery_status : Json → Output
  presence : Json → Output
  connection_state : ConnectionStateChange → Output
  welcomed : WelcomeData → Output
  sent : SendResult → Output
  send_failed : String → String → Output
  replay_truncated : ℕ → ℕ → Output
  error : String → Output
  resolve_send : String → SendResult → Output
  reject_send : String → String → Output
  resolve_ready : WelcomeData → Output
  reject_ready : String → Output
  connect_transport : ConnectParams → Output
  close_transport : ℕ → Output
  fetch_token : TokenRequestReason → Output
  dispose : Output

-- The fields of the sending side, and the frames that a transport accepted, oldest first.
pub record Sending : Type 0 where
  pub store : Store
  pub in_flight : Set String
  pub max_in_flight : ℕ
  pub retry_at : Map String ℕ
  pub waiting : Set String
  pub wire : List ClientFrame

-- ConversationDeps
pub record Deps : Type 0 where
  pub transports : List TransportKind
  pub fallback_after_attempts : ℕ
  pub reconnect : ResolvedReconnect
  pub replay_wait_ms : ℕ
  pub gap_wait_ms : ℕ

-- The `#ready` promise.
pub data Ready : Type 0 where
  no_promise pending settled : Ready

pub record Conversation : Type 0 where
  pub deps : Deps
  pub tokens : TokenManager
  pub conversation_id : Option String
  pub user_id : Option String
  pub receive : Receive
  pub sending : Sending
  pub state : ConnectionState
  pub transport : Option Transport
  pub transport_index : ℕ
  pub failures_on_transport : ℕ
  pub attempt : ℕ
  pub auth_rejections : ℕ
  pub stopped : Bool
  pub started : Bool
  pub welcomed : Bool
  pub connect_token : ℕ
  pub reconnect_timer : Option Timer
  pub refresh_timer : Option Timer
  pub replay_timer : Option Timer
  pub gap_timer : Option Timer
  pub sync_timer : Option Timer
  pub retry_timer : Option Timer
  pub replaying : Bool
  pub replay_target : ℕ
  pub ready : Ready
  pub last_welcome : Option WelcomeData
  pub fatal : Option String
  pub log : List Output

-- What a handler reads outside the session while it runs: `Date.now()`, whether the transport takes
-- a frame, `Math.random()`.
pub record Env : Type 0 where
  pub now : ℕ
  pub accepts : ClientFrame → Bool
  pub random : Fraction

abbrev pub emit : Output → Conversation → Conversation
emit o c = record c { log = c.log ++ (o ∷ []) }

-- A string that JavaScript counts as true.
abbrev pub truthy : Option String → Option String
truthy none = none
truthy (some s) = if s == "" then none else some s

abbrev pub is_some {ℓ} : {A : Type ℓ} → Option A → Bool
is_some none = false
is_some (some a) = true

-- `transport?.send(frame)` where the answer is not read.
unfoldable pub transport_send : Env → ClientFrame → Conversation → Conversation
transport_send env frame c = elim c.transport [
  | none ↦ c
  | some t ↦
      if env.accepts frame
      then record c { sending = record c.sending { wire = c.sending.wire ++ (frame ∷ []) } }
      else c
]

-- #saveState
unfoldable pub save_state : Conversation → Conversation
save_state c = elim (truthy c.conversation_id) [
  | none ↦ c
  | some id ↦ record c {
    sending = record c.sending {
      store =
          Store.set_state
            (record {
              conversation_id = id;
              user_id = truthy c.user_id;
              watermark = c.receive.watermark;
            })
            c.sending.store;
    };
  }
]

-- #setState
unfoldable pub set_state :
    ConnectionState → Option ℕ → Option TransportClose → Option String → Conversation → Conversation
set_state state delay_ms close error_code c =
    if same_connection c.state state && not (is_reconnecting state)
    then c
    else emit
        (connection_state (record {
          state = state;
          previous = c.state;
          attempt = c.attempt;
          delay_ms = delay_ms;
          close = close;
          error = error_code;
        }))
        (record c { state = state })
