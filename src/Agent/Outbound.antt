-- ===== src/Agent/Outbound.antt =====
-- packages/agent-ts/src/agent.ts: the agent's outbound queue, its token bucket and its unacknowledged
-- sends. Tokens are counted in thousandths, which makes the source's fractions exact. A promise is named
-- by the number of its send, and its settlement is an output.
pub mod Pump
pub mod Queue
use converger.Prelude.{
  ℕ, zero, suc, ◌+◌, ◌-◌, ◌*◌, ◌/◌, min, max, Bool, true, false, not, ◌&&◌, ◌||◌, Option, none,
  some, String, List, [], ◌∷◌, ◌++◌, StrictEq, ◌==◌, string_eq, nat_eq, if◌then◌else◌, length, leb,
  ltb,
}
use Prim.Native.String
use converger.Js.Map
use converger.Js.Map.{Map}
use converger.Agent.Watermarks.{WatermarkTracker}
use converger.Backoff.{Fraction, ResolvedReconnect, backoff_delay}

-- What the queue reads of a frame; `body` stands for the rest of it.
pub record Frame : Type 0 where
  pub kind : String
  pub client_id : Option String
  pub id : Option String
  pub body : String

-- Outgoing; `promise` stands for its `resolve` and `reject`.
pub record Outgoing : Type 0 where
  pub conversation_id : String
  pub frame : Frame
  pub client_id : Option String
  pub promise : ℕ
  pub deadline : ℕ
  pub sent_at : ℕ
  pub attempts : ℕ

-- What reaches the socket, the callers and the timers.
pub data Output : Type 0 where
  written : Outgoing → Output
  resolved : ℕ → Option String → Output
  rejected : ℕ → String → Output
  emitted : String → Output
  retry_in : ℕ → Outgoing → Output
  disconnected : ℕ → Option ℕ → Output
  start_settled : Option String → Output
  connect_in : Bool → ℕ → Output

-- The fields of Agent that the queue uses. `socket` and `connected` tell whether there is a socket and
-- whether its `welcome` came; `pump_timer` is the time at which #pump runs again.
pub record Agent : Type 0 where
  pub queue : List Outgoing
  pub inflight : Map String Outgoing
  pub max_in_flight : ℕ
  pub fps : ℕ
  pub ack_timeout_ms : ℕ
  pub send_timeout_ms : ℕ
  pub reconnect : ResolvedReconnect
  pub running : Bool
  pub started : Bool
  pub connected : Bool
  pub pump_timer : Option ℕ
  pub millitokens : ℕ
  pub tokens_at : ℕ
  pub paused_until : ℕ
  pub client_counter : ℕ
  pub promises : ℕ
  pub tracker : WatermarkTracker
  pub has_get_token : Bool
  pub ever_connected : Bool
  pub was_rejected : Bool
  pub attempt : ℕ
  pub outputs : List Output

-- Outputs, the latest last.
unfoldable pub put : List Output → Agent → Agent
put os a = record a { outputs = a.outputs ++ os }

-- `${conversationId}\u0000${clientId}`
unfoldable pub key : String → String → String
key conversation_id client_id = String.◌++◌ conversation_id (String.◌++◌ "\0" client_id)

-- A client id counts where it is a string that is not empty.
unfoldable pub acked_id : Option String → Option String
acked_id none = none
acked_id (some id) = if id == "" then none else some id

-- Math.ceil
unfoldable pub ceil_div : ℕ → ℕ → ℕ
ceil_div n d = (n + (d - 1)) / d

-- The bucket's refill: `fps` tokens a second, `fps` at most.
unfoldable pub refill : ℕ → Agent → Agent
refill now a = record a {
  millitokens = min (a.fps * 1000) (a.millitokens + (now - a.tokens_at) * a.fps);
  tokens_at = now;
}

-- The rest of a round, once the socket took the head.
unfoldable pub sent : ℕ → Outgoing → List Outgoing → Agent → Agent
unfolding put
sent now head rest a =
    let entry = record head { attempts = head.attempts + 1; sent_at = now } in
    let a1 = record a { queue = rest; millitokens = a.millitokens - 1000 } in
    elim (acked_id head.client_id) [
      | some id ↦
          put (written head ∷ [])
            (record a1 { inflight = Map.set (key head.conversation_id id) entry a.inflight })
      | none ↦ put (written head ∷ resolved head.promise none ∷ []) a1
    ]

abbrev pub is_some {ℓ} : {A : Type ℓ} → Option A → Bool
is_some none = false
is_some (some _) = true

-- What a round of #pump's loop does with the head of the queue.
pub data Round : Type 0 where
  in_flight_full out_of_tokens refused taken : Round

unfoldable pub round_of : (Outgoing → Bool) → Outgoing → Agent → Round
unfolding acked_id
round_of accepts head a =
    if is_some (acked_id head.client_id) && leb a.max_in_flight (length a.inflight)
    then in_flight_full
    else if ltb a.millitokens 1000
    then out_of_tokens
    else if accepts head
    then taken
    else refused

-- #pump's loop, over the queue; `accepts` is what the socket's `send` answers.
unfoldable pub pump_loop : (Outgoing → Bool) → ℕ → List Outgoing → Agent → Agent
pump_loop accepts now [] a = record a { queue = [] }
pump_loop accepts now (head ∷ rest) a =
    let a1 = record a { queue = head ∷ rest } in
    elim (round_of accepts head a) [
      | in_flight_full ↦ a1
      | out_of_tokens ↦ record a1 {
        pump_timer = some (now + ceil_div (1000 - a.millitokens) a.fps);
      }
      | refused ↦ a1
      | taken ↦ pump_loop accepts now rest (sent now head rest a)
    ]

-- #pump
unfoldable pub pump : (Outgoing → Bool) → ℕ → Agent → Agent
unfolding refill
pump accepts now a =
    if is_some a.pump_timer || not a.connected
    then a
    else if ltb now a.paused_until
    then record a { pump_timer = some a.paused_until }
    else pump_loop accepts now a.queue (refill now a)

-- The pump timer's callback, at its time.
unfoldable pub pump_timer_fired : (Outgoing → Bool) → ℕ → Agent → Agent
pump_timer_fired accepts now a = pump accepts now (record a { pump_timer = none })
