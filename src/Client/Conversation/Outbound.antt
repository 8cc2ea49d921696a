-- ===== src/Client/Conversation/Outbound.antt =====
-- conversation.ts: the outbox on the wire. `#flush`, `#scheduleRetry`, `#settle` and `send`.
use converger.Prelude.{
  ℕ, ◌-◌, min, Bool, true, false, not, ◌&&◌, ◌||◌, Option, none, some, String, List, [], ◌∷◌, ◌++◌,
  string_eq, nat_eq, if◌then◌else◌, length, leb, ltb,
}
use converger.Js.Set
use converger.Js.Map
use converger.Js.Map.{Map}
use converger.Client.Frames.{ClientMessage, AckFrame, text}
use converger.Client.Outbox.Entries.{OutboxEntry}
use converger.Client.Outbox.Store
use converger.Client.Receive.Watermark.{note_own}
use converger.Client.Conversation.ClientId.{client_id_ok}
use converger.Client.Conversation.State.{
  Conversation, Sending, Env, SendResult, emit, is_open, is_some, clear_timer, start_timer, sent,
  resolve_send,
}

-- The end of a round: the frame is handed to the transport, and recorded where it was taken.
unfoldable pub put_on_wire : Env → OutboxEntry → Sending → Sending × Bool
put_on_wire env e s =
    if env.accepts (text e.frame)
    then (
      record s {
        in_flight = Set.add e.client_id s.in_flight;
        store = Store.touch e.client_id s.store;
        wire = s.wire ++ (text e.frame ∷ []);
      },
      true,
    )
    else (s, false)

-- `retryAt !== undefined && retryAt > now`
abbrev pub is_later : Option ℕ → ℕ → Bool
is_later none now = false
is_later (some at) now = ltb now at

-- One round of the loop of #flush: the new state, and whether the loop goes on.
unfoldable pub flush_one : Env → OutboxEntry → Sending → Sending × Bool
unfolding put_on_wire
flush_one env e s =
    if leb s.max_in_flight (length s.in_flight)
    then (s, false)
    else if Set.has e.client_id s.in_flight
    then (s, true)
    else if is_later (Map.get e.client_id s.retry_at) env.now
    then (s, true)
    else put_on_wire env e (record s { retry_at = Map.delete e.client_id s.retry_at })

-- The loop of #flush.
unfoldable pub flush_loop : Env → List OutboxEntry → Sending → Sending
flush_loop env [] s = s
flush_loop env (e ∷ es) s =
    let (s', more) = flush_one env e s in
    let rest = flush_loop env es s' in if more then rest else s'

abbrev pub can_flush : Conversation → Bool
can_flush c = is_open c.state && is_some c.transport && not c.replaying

-- #flush
unfoldable pub flush : Env → Conversation → Conversation
flush env c =
    if can_flush c
    then record c { sending = flush_loop env c.sending.store.entries c.sending }
    else c

abbrev pub min_with : ℕ → Option ℕ → ℕ
min_with at none = at
min_with at (some b) = min at b

-- Math.min(...values), where there are any.
unfoldable pub least : Map String ℕ → Option ℕ
least [] = none
least ((k, at) ∷ m) = some (min_with at (least m))

-- The end of #scheduleRetry, at the earliest retry.
abbrev pub arm_retry : Option ℕ → Env → Conversation → Conversation
arm_retry none env c = record c { retry_timer = clear_timer c.retry_timer }
arm_retry (some next) env c = record c { retry_timer = start_timer (next - env.now) 0 }

-- #scheduleRetry
unfoldable pub schedule_retry : Env → Conversation → Conversation
schedule_retry env c = arm_retry (least c.sending.retry_at) env c

-- `if (retryAt.size > 0) this.#scheduleRetry()`
abbrev pub retry_again : Map String ℕ → Env → Conversation → Conversation
retry_again [] env c = c
retry_again (_ ∷ _) env c = schedule_retry env c

-- The callback of the retry timer.
unfoldable pub retry_fired : Env → Conversation → Conversation
retry_fired env c =
    let c' = flush env (record c { retry_timer = none }) in retry_again c'.sending.retry_at env c'

-- The deletions of #settle: beside the new fields, whether there was an entry or a promise.
unfoldable pub forget_send : String → Sending → Sending × Bool
forget_send id s =
    let (store, entry) = Store.remove id s.store in
    (
      record s {
        in_flight = Set.delete id s.in_flight;
        retry_at = Map.delete id s.retry_at;
        store = store;
        waiting = Set.delete id s.waiting;
      },
      is_some entry || Set.has id s.waiting,
    )

abbrev pub send_result : AckFrame → SendResult
send_result f = record {
  client_id = f.client_id;
  id = f.id;
  seq = f.seq;
  timestamp = f.timestamp;
  duplicate = f.duplicate;
}

-- #settle
unfoldable pub settle : AckFrame → Conversation → Conversation
settle f c =
    let (sending, known) = forget_send f.client_id c.sending in
    let c' = record c { receive = note_own f.seq f.id c.receive; sending = sending } in
    let awaited =
      if Set.has f.client_id c.sending.waiting
      then emit (resolve_send f.client_id (send_result f)) c'
      else c' in
    if known then emit (sent (send_result f)) awaited else c'

-- Why `send` rejects at once.
pub data SendRefusal : Type 0 where
  session_closed : String → SendRefusal
  invalid_client_id duplicate_client_id : SendRefusal

-- send, up to the promise that it returns.
unfoldable pub send : Env → ClientMessage → Conversation → Conversation × Option SendRefusal
send env m c = elim c.fatal [
  | some code ↦ (c, some (session_closed code))
  | none ↦
      if not (client_id_ok m.client_id)
      then (c, some invalid_client_id)
      else if is_some (Store.get m.client_id c.sending.store)
          || Set.has m.client_id c.sending.waiting
      then (c, some duplicate_client_id)
      else (
        flush env (record c {
          sending = record c.sending {
            waiting = Set.add m.client_id c.sending.waiting;
            store =
                Store.add
                  (record {
                    client_id = m.client_id;
                    frame = m;
                    created_at = env.now;
                    attempts = 0;
                  })
                  c.sending.store;
          };
        }),
        none,
      )
]
