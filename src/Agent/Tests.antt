-- ===== src/Agent/Tests.antt =====
-- The agent's queue, positions and socket on concrete inputs.
use converger.Prelude.{
  ℕ, not, ◌+◌, ◌-◌, ◌*◌, ◌≡◌, ◌≤◌, refl, true, false, none, some, Bool, String, List, [], ◌∷◌, ◌++◌,
  arith, length, if◌then◌else◌, max, inl, string_eq,
}
use mathlib.Core.List.{Memᴰ}
use converger.Js.Set
use converger.Backoff.{Fraction}
use converger.Agent.Watermarks
use converger.Agent.Watermarks.{WatermarkTracker}
use converger.Agent.Watermarks.Recording.{record_seq_lem, record_seq_capacity}
use converger.Agent.Outbound.{Agent, Outgoing, pump, key, retry_in, start_settled}
use converger.Agent.Outbound.Pump.{pump_order, written_of}
use converger.Agent.Outbound.Queue.{
  on_close, stop_end, is_fatal, AgentError, on_send_error, retry_fired, resend_codes,
}
use converger.Agent.Outbound.Queue.Rate.{Event, run, end_of, rate_limit}
use converger.Agent.Outbound.Queue.Settled.{IsHeld, IsSettled, fatal_close_settles, stop_settles}
use converger.Agent.Outbound.Queue.Resend.{resend_lost}
use converger.Agent.Socket.{AgentSocket, tick}
use converger.Agent.Socket.Liveness
use converger.Agent.Socket.Liveness.{closes, close_once}
use converger.Agent.Socket.Silence.{silent_server_closed}

abbrev tracker : WatermarkTracker
tracker = record {
  capacity = 2;
  positions =
      ("x", record { high = 7; floor = 3; seen = 5 ∷ 7 ∷ [] })
      ∷ ("y", record { high = 1; floor = 1; seen = [] })
      ∷ [];
}

record_seq_lem_example :
    ((Watermarks.record_seq "x" 6 tracker).1 ≡ not (Watermarks.seen "x" 6 tracker))
    × (Watermarks.seen "x" 6 (Watermarks.record_seq "x" 6 tracker).0 ≡ true)
    × ((if Watermarks.seen "x" 5 tracker
          then Watermarks.seen "x" 5 (Watermarks.record_seq "x" 6 tracker).0
          else true)
        ≡ true)
    × (Watermarks.get "x" (Watermarks.record_seq "x" 6 tracker).0 ≡ (
        if Watermarks.seen "x" 6 tracker
        then Watermarks.get "x" tracker
        else max (Watermarks.get "x" tracker) 6))
record_seq_lem_example = record_seq_lem "x" 5 5 tracker (omega arith)

record_seq_capacity_example : length (Watermarks.record_seq "z" 1 tracker).0.positions ≤ 2
record_seq_capacity_example = record_seq_capacity "z" 0 tracker

abbrev message : String → ℕ → Outgoing
message id promise = record {
  conversation_id = "conv";
  frame = record { kind = "text"; client_id = some id; id = none; body = "{}" };
  client_id = some id;
  promise = promise;
  deadline = 130000;
  sent_at = 0;
  attempts = 0;
}

-- A connected agent with two messages queued and a third in flight.
abbrev agent : Agent
agent = record {
  queue = message "a" 1 ∷ message "b" 2 ∷ [];
  inflight = (key "conv" "c", message "c" 3) ∷ [];
  max_in_flight = 2;
  fps = 15;
  ack_timeout_ms = 10000;
  send_timeout_ms = 120000;
  reconnect = record {
    enabled = true;
    initial_delay_ms = 1000;
    max_delay_ms = 30000;
    factor = 2;
    jitter = record { num = 1; den = 2 };
    max_attempts = none;
  };
  running = true;
  started = true;
  connected = true;
  pump_timer = none;
  millitokens = 15000;
  tokens_at = 9000;
  paused_until = 0;
  client_counter = 3;
  promises = 4;
  tracker = tracker;
  has_get_token = true;
  ever_connected = true;
  was_rejected = false;
  attempt = 0;
  outputs = [];
}

abbrev all_written : Outgoing → Bool
all_written o = true

pump_order_example :
    (written_of (pump all_written 10000 agent).outputs ++ (pump all_written 10000 agent).queue
      ≡ message "a" 1 ∷ message "b" 2 ∷ [])
    × (length (pump all_written 10000 agent).inflight ≤ 2)
pump_order_example = pump_order all_written 10000 agent (omega arith)

abbrev events : List (ℕ × (Outgoing → Bool) × Event)
events =
    (0, all_written, Event.ticked)
    ∷ (500, all_written, Event.ack "conv" "c" (some 9))
    ∷ (1500, all_written, Event.pump_again)
    ∷ []

rate_limit_example :
    1000 * length (written_of (run 10000 events agent).outputs)
    ≤ 1000 * length (written_of agent.outputs) + 1000 * 15 + 15 * (end_of 10000 events - 10000)
rate_limit_example = rate_limit 10000 events agent (omega arith)

b-IsHeld : IsHeld (message "b" 2) agent
b-IsHeld = inl (Memᴰ.tail (Memᴰ.head refl))

fatal_4400 : is_fatal 4400 agent ≡ true
unfolding is_fatal
fatal_4400 = refl

abbrev half : Fraction
half = record { num = 1; den = 2 }

fatal_close_settles_example :
    IsSettled (message "b" 2) (on_close 4400 none half agent).outputs
    × ((on_close 4400 none half agent).queue ≡ [])
    × ((on_close 4400 none half agent).inflight ≡ [])
    × ((on_close 4400 none half agent).running ≡ false)
fatal_close_settles_example =
    fatal_close_settles 4400 none half agent (message "b" 2) refl fatal_4400 b-IsHeld

stop_settles_example :
    IsSettled (message "b" 2) (stop_end agent).outputs
    × ((stop_end agent).queue ≡ [])
    × ((stop_end agent).inflight ≡ [])
stop_settles_example = stop_settles agent (message "b" 2) b-IsHeld

abbrev refusal : AgentError
refusal = record {
  code = "rate_limited";
  retryable = true;
  retry_after_ms = some 2000;
  conversation_id = some "conv";
  client_id = some "c";
}

abbrev alone : Agent
alone = record agent { queue = [] }

resendable : Set.has {A = String} "rate_limited" resend_codes ≡ true
unfolding Set.has
resendable = refl

resend_lost_example :
    (retry_fired all_written 12000
      (message "c" 3)
      (stop_end (on_send_error all_written 10000 half refusal alone))).outputs
    ≡ alone.outputs ++ retry_in 2000 (message "c" 3) ∷ start_settled (some "closed") ∷ []
resend_lost_example =
    resend_lost all_written 10000 12000 half refusal (message "c" 3) alone refl refl refl resendable
      (omega arith)

abbrev socket : AgentSocket
socket = record {
  has_socket = false;
  ready = false;
  opened = false;
  closed = false;
  welcomed = false;
  ticking = false;
  connect_timer = false;
  idle_timeout_ms = 60000;
  liveness_grace_ms = 15000;
  last_in = 0;
  last_out = 0;
  pings = 0;
  retry_after_ms = none;
  effects = [];
}

abbrev life : List Liveness.Event
life =
    Liveness.Event.connected
    ∷ Liveness.Event.opened 100
    ∷ Liveness.Event.ticked 90000
    ∷ Liveness.Event.lost 1006 "" none
    ∷ []

close_once_example :
    closes (Liveness.run life socket).effects ≡ (if (Liveness.run life socket).closed then 1 else 0)
close_once_example = close_once life socket refl refl

abbrev silent : AgentSocket
silent = record socket {
  has_socket = true;
  ready = true;
  opened = true;
  ticking = true;
  last_in = 100;
}

-- The agent pings twice, and nothing comes.
abbrev pings : List Liveness.Event
pings = Liveness.Event.ticked 40000 ∷ Liveness.Event.ticked 71000 ∷ []

silent_server_closed_example : (tick 90000 (Liveness.run pings silent)).closed ≡ true
silent_server_closed_example =
    silent_server_closed pings 90000 silent (tt, (tt, tt)) refl (omega arith)
