-- ===== src/Client/Conversation/Inbound.antt =====
-- conversation.ts: the frames of the server. `#onFrame` and its handlers.
use converger.Prelude.{
  ℕ, ◌-◌, ◌*◌, ◌^◌, min, Bool, true, false, not, ◌&&◌, ◌||◌, Option, none, some, String, ◌==◌,
  string_eq, nat_eq, if◌then◌else◌, length, leb, ltb,
}
use converger.Js.Set
use converger.Backoff.{or_default}
use converger.Client.Frames.{ClientFrame, ActivityFrame, AckFrame}
use converger.Client.Outbox.Store
use converger.Client.Receive.Watermark.{mark_seen, is_duplicate}
use converger.Client.Token
use converger.Client.Token.{refresh}
use converger.Client.Conversation.State.{
  Conversation, Env, Output, emit, is_some, is_open, clear_timer, start_timer, transport_send,
  save_state,
}
use converger.Client.Conversation.Outbound.{flush, settle}

-- `Math.min(delay, 2 ** 31 - 1)`, doubled as the delay is.
abbrev timer_limit : ℕ
timer_limit = 2 * (2 ^ 31 - 1)

-- #scheduleRefresh; the timer's delay is doubled.
unfoldable pub schedule_refresh : Env → Conversation → Conversation
schedule_refresh env c = elim (Token.double_refresh_delay env.now c.tokens) [
  | none ↦ record c { refresh_timer = clear_timer c.refresh_timer }
  | some delay ↦ record c { refresh_timer = start_timer (min delay timer_limit) 0 }
]

-- `tokens.fetch(reason)`, up to its answer.
unfoldable pub fetch_token : Token.TokenRequestReason → Conversation → Conversation
fetch_token reason c =
    let (tokens, called) = Token.fetch_begin c.tokens in
    let c' = record c { tokens = tokens } in
    if called then emit (Output.fetch_token reason) c' else c'

-- #armReplayTimer
unfoldable pub arm_replay_timer : Conversation → Conversation
arm_replay_timer c = record c { replay_timer = start_timer c.deps.replay_wait_ms 0 }

-- #endReplay
unfoldable pub end_replay : Env → Bool → Conversation → Conversation
end_replay env and_flush c =
    let c' = record c { replay_timer = none } in
    let ended = record c' { replaying = false } in
    if not c.replaying then c' else if and_flush then flush env ended else ended

-- `#transport?.capabilities.sync`
abbrev can_sync : Conversation → Bool
can_sync c = elim c.transport [ none ↦ false | some t ↦ t.kind.sync ]

-- #checkGap
unfoldable pub check_gap : ℕ → Conversation → Conversation
check_gap highest c =
    if is_some c.gap_timer || c.replaying || ltb 0 (length c.sending.in_flight)
    then c
    else if not (can_sync c)
    then c
    else if leb highest c.receive.watermark
    then c
    else record c { gap_timer = start_timer c.deps.gap_wait_ms highest }

-- The callback of the gap timer, which captured `highest`.
unfoldable pub gap_fired : Env → ℕ → Conversation → Conversation
gap_fired env highest c =
    let c' = record c { gap_timer = none } in
    if ltb c.receive.watermark highest && leb (length c.sending.in_flight) 0 && is_open c.state
    then transport_send env (ClientFrame.sync c.receive.watermark) c'
    else c'

-- #markSeen, with the write of the state.
unfoldable pub record_seq : ℕ → Conversation → Conversation
record_seq seq c =
    let (receive, advanced) = mark_seen seq c.receive in
    let c' = record c { receive = receive } in if advanced then save_state c' else c'

-- The ack that #ownTurn settles a send with; `String(frame.id)`.
abbrev pub own_ack : String → ActivityFrame → AckFrame
own_ack client_id f = record {
  client_id = client_id;
  id = or_default f.id "undefined";
  seq = some f.seq;
  timestamp = none;
  duplicate = true;
}

-- The test of #ownTurn: the clientId of a pending send that comes back as the user's own turn.
abbrev pub own_client_id : ActivityFrame → Conversation → Option String
own_client_id f c = elim f.client_id [
  | none ↦ none
  | some id ↦ elim f.from [
    | none ↦ none
    | some from ↦ if from == "user" && is_some (Store.get id c.sending.store) then some id else none
  ]
]

-- #ownTurn
unfoldable pub own_turn : ActivityFrame → Conversation → Conversation × Bool
own_turn f c = elim (own_client_id f c) [
  | none ↦ (c, false)
  | some id ↦ (settle (own_ack id f) c, true)
]

-- `typeof frame.id === "string" && ownIds.has(frame.id)`
abbrev pub own_id : ActivityFrame → Conversation → Bool
own_id f c = elim f.id [ none ↦ false | some id ↦ Set.has id c.receive.own_ids ]

-- The event of a persistent frame.
abbrev pub activity_output : ActivityFrame → Output
activity_output f = if f.frame_type == "typing" then Output.typing f else Output.activity f

-- The first half of #onPersistent: a frame that is no duplicate is recorded, and emitted unless it is
-- an own turn.
unfoldable pub accept_frame : ActivityFrame → Conversation → Conversation
accept_frame f c =
    if is_duplicate f.seq c.receive
    then c
    else let (c', own) = own_turn f (record_seq f.seq c) in
      if not own && not (Set.has f.seq c'.receive.own_seqs) && not (own_id f c')
      then emit (activity_output f) c'
      else c'

-- #onPersistent
unfoldable pub on_persistent : Env → ActivityFrame → Conversation → Conversation
on_persistent env f c =
    let c1 = accept_frame f c in
    let c2 = if c1.replaying && leb c1.replay_target f.seq then end_replay env true c1 else c1 in
    if ltb c2.receive.watermark f.seq then check_gap f.seq c2 else c2

-- `if (typeof frame.seq === "number") this.#markSeen(frame.seq)`
abbrev pub record_ack : Option ℕ → Conversation → Conversation
record_ack none c = c
record_ack (some seq) c = record_seq seq c

-- #onAck
unfoldable pub on_ack : Env → AckFrame → Conversation → Conversation
on_ack env f c = flush env (settle f (record_ack f.seq c))
