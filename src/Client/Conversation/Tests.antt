-- ===== src/Client/Conversation/Tests.antt =====
-- Runs of a session on concrete frames, and the theorems about it at such inputs.
use converger.Prelude.{
  ℕ, ◌≡◌, ◌≤◌, refl, true, false, none, some, String, List, [], ◌∷◌, arith, inl, ◌++◌, ◌+◌, All,
  if◌then◌else◌, string_eq,
}
use converger.Js.Set
use converger.Js.Map
use converger.Backoff.{ResolvedReconnect}
use converger.Client.Frames.{ActivityFrame, ClientMessage}
use converger.Client.Outbox.Entries.{OutboxEntry, ids, AllDistinct}
use converger.Client.Outbox.Store.{Store}
use converger.Client.Receive.Watermark.{new_receive, is_duplicate}
use converger.Client.Conversation.State.{
  Conversation, ConnectionState, Env, Ready, TransportClose, TransportKind, start_timer,
}
use converger.Client.Conversation.Outbound.{flush, flush_loop, flush_one, retry_fired}
use converger.Client.Conversation.Inbound.{on_persistent, activity_output, check_gap}
use converger.Client.Conversation.Lifecycle.{disconnect, on_close}
use converger.Client.Conversation.Session.{Event, step, run}
use converger.Client.Conversation.Window.{IsWithinWindow, flush-IsWithinWindow}
use converger.Client.Conversation.OnceOnWire.{flush_once, frames, Subsequence}
use converger.Client.Conversation.OnceEmitted.{Delivery, deliver_all, emitted_once}
use converger.Client.Conversation.Emissions.{emissions}
use converger.Client.Conversation.Reported.{IsForeign, on_persistent_new}
use converger.Client.Conversation.GapForever.{gap_never_again}
use converger.Client.Conversation.Retry.{retry_spins}
use converger.Client.Conversation.Final.{disconnect_final}

abbrev phoenix : TransportKind
phoenix = record { name = "phoenix"; signals = true; sync = true; auth = true }

abbrev reconnect : ResolvedReconnect
reconnect = record {
  enabled = true;
  initial_delay_ms = 1000;
  max_delay_ms = 10000;
  factor = 2;
  jitter = record { num = 1; den = 2 };
  max_attempts = none;
}

abbrev env : Env
env = record { now = 5000; accepts = λ f. true; random = record { num = 1; den = 2 } }

abbrev message : String → ClientMessage
message id = record {
  client_id = id;
  text = "hello";
  attachments = none;
  metadata = none;
  meta = none;
  reply_to = none;
}

abbrev entry : String → OutboxEntry
entry id = record { client_id = id; frame = message id; created_at = 1000; attempts = 0 }

abbrev store : Store
store = record {
  prefix = "converger";
  key = none;
  entries = entry "a" ∷ entry "b" ∷ entry "c" ∷ [];
  state = none;
  writing = [];
}

-- An open session with three messages, one of them in flight.
abbrev session : Conversation
session = record {
  deps = record {
    transports = phoenix ∷ [];
    fallback_after_attempts = 2;
    reconnect = reconnect;
    replay_wait_ms = 2000;
    gap_wait_ms = 2000;
  };
  tokens = record { skew_ms = 30000; current = none; pending = false };
  conversation_id = some "conv";
  user_id = none;
  receive = record new_receive { watermark = 4 };
  sending = record {
    store = store;
    in_flight = "a" ∷ [];
    max_in_flight = 2;
    retry_at = [];
    waiting = "a" ∷ "b" ∷ "c" ∷ [];
    wire = [];
  };
  state = ConnectionState.open_;
  transport = some (record { attempt = 1; kind = phoenix });
  transport_index = 0;
  failures_on_transport = 0;
  attempt = 0;
  auth_rejections = 0;
  stopped = false;
  started = true;
  welcomed = true;
  connect_token = 1;
  reconnect_timer = none;
  refresh_timer = none;
  replay_timer = none;
  gap_timer = none;
  sync_timer = none;
  retry_timer = none;
  replaying = false;
  replay_target = 0;
  ready = Ready.settled;
  last_welcome = none;
  fatal = none;
  log = [];
}

abbrev turn : ℕ → ActivityFrame
turn seq = record {
  frame_type = "text";
  id = none;
  seq = seq;
  from = some "agent";
  client_id = none;
  body = "{}";
}

abbrev lost : TransportClose
lost = record { code = 1006; opened = true; retry_after_ms = none }

-- A flush sends the second message, and then the window is full.
flush_second : (flush env session).sending.in_flight ≡ "a" ∷ "b" ∷ []
unfolding flush flush_loop flush_one Set.has Set.add Map.get
flush_second = refl

flush_once_example :
    (new : List OutboxEntry) × Subsequence new session.sending.store.entries
    × ((flush env session).sending.wire ≡ [] ++ frames new)
    × All (λ e. Set.has e.client_id ("a" ∷ []) ≡ false) new
    × AllDistinct (ids new)
    × ((id : String)
        → Set.has id (flush env session).sending.in_flight
          ≡ (if Set.has id (ids new) then true else Set.has id ("a" ∷ [])))
flush_once_example = flush_once env session

flush-IsWithinWindow_example : IsWithinWindow (flush env session).sending
flush-IsWithinWindow_example = flush-IsWithinWindow env session (omega arith)

-- The sixth frame, the fifth twice, and an ack of the seventh.
abbrev deliveries : List Delivery
deliveries =
    Delivery.activity env (turn 6)
    ∷ Delivery.activity env (turn 5)
    ∷ Delivery.activity env (turn 5)
    ∷ Delivery.acked env
        (record { client_id = "a"; id = "m7"; seq = some 7; timestamp = none; duplicate = false })
    ∷ []

emitted_once_example :
    emissions 5 (deliver_all deliveries session).log
    ≤ emissions 5 session.log + (if is_duplicate 5 session.receive then 0 else 1)
emitted_once_example = emitted_once 5 deliveries session

turn_new : is_duplicate 5 session.receive ≡ false
unfolding is_duplicate Set.has
turn_new = refl

turn-IsForeign : IsForeign (turn 5) session
unfolding Set.has
turn-IsForeign = record { no_pending_send = refl; no_own_seq = refl; no_own_id = refl }

on_persistent_new_example :
    (on_persistent env (turn 5) session).log ≡ [] ++ (activity_output (turn 5) ∷ [])
on_persistent_new_example = on_persistent_new env (turn 5) session turn_new turn-IsForeign

abbrev with_gap_timer : Conversation
with_gap_timer = record session {
  gap_timer = some (record { delay = 2000; argument = 9; live = true });
}

gap_never_again_example :
    ((n : ℕ)
      → check_gap n (run ((env, Event.retry_timer) ∷ []) (on_close env lost with_gap_timer))
        ≡ run ((env, Event.retry_timer) ∷ []) (on_close env lost with_gap_timer))
    × ((env' : Env)
        → step env' Event.gap_timer
            (run ((env, Event.retry_timer) ∷ []) (on_close env lost with_gap_timer))
          ≡ run ((env, Event.retry_timer) ∷ []) (on_close env lost with_gap_timer))
gap_never_again_example =
    gap_never_again env lost with_gap_timer (record { delay = 2000; argument = 9; live = true })
      ((env, Event.retry_timer) ∷ []) refl

-- The connection is lost while a retry is due.
abbrev offline : Conversation
offline = record session {
  state = ConnectionState.reconnecting;
  transport = none;
  sending = record session.sending { in_flight = []; retry_at = ("a", 4000) ∷ [] };
}

retry_spins_example : retry_fired env offline ≡ record offline { retry_timer = start_timer 0 0 }
retry_spins_example = retry_spins env offline refl (inl (omega arith))

abbrev afterwards : List (Env × Event)
afterwards =
    (env, Event.begin) ∷ (env, Event.send_message (message "d")) ∷ (env, Event.ready 2 phoenix) ∷ []

disconnect_final_example :
    ((run afterwards (disconnect session)).stopped ≡ true)
    × ((run afterwards (disconnect session)).transport ≡ none)
    × ((run afterwards (disconnect session)).sending.wire ≡ session.sending.wire)
disconnect_final_example = disconnect_final afterwards session
