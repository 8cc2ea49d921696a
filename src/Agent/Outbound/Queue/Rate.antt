-- ===== src/Agent/Outbound/Queue/Rate.antt =====
-- agent.ts: runs of the agent, and the tokens that its writes take.
use converger.Prelude.{
  ℕ, ◌+◌, ◌-◌, ◌*◌, ◌≤◌, ◌≡◌, refl, ap, ◌∙◌, min, Bool, true, false, Option, none, some, String,
  List, [], ◌∷◌, string_eq, if◌then◌else◌, length, arith, Option-cases, inl, inr,
}
use converger.Js.Map
use converger.Backoff.{Fraction}
use converger.Agent.Outbound.{
  Frame, Outgoing, Agent, resolved, rejected, emitted, key, refill, pump_loop, pump,
  pump_timer_fired,
}
use converger.Agent.Outbound.Pump.{written_of, spent, spent-pump_loop}
use converger.Agent.Outbound.Queue.{
  enqueue, on_ack, AgentError, on_send_error, retry_fired, tick, on_welcome, on_close, stop_end,
  track, or_empty, send_error_output,
}
use converger.Agent.Outbound.Queue.Quiet.{
  IsQuiet, IsQuiet-trans, put-IsQuiet, expire-IsQuiet, tick_inflight-IsQuiet, on_close-IsQuiet,
  stop_end-IsQuiet, settle_now-IsQuiet, queue_frame-IsQuiet, answer-IsQuiet, track-IsQuiet,
  written_of-send_error_output, welcomed-IsQuiet,
}

-- What happens to the agent, each at a time; `accepts` is what the socket answers.
pub data Event : Type 0 where
  send : (ℕ → String) → String → Frame → Event
  ack : String → String → Option ℕ → Event
  send_error : Fraction → AgentError → Event
  rate_limited : ℕ → Event
  retry : Outgoing → Event
  ticked : Event
  pump_again : Event
  welcome : Event
  closed : ℕ → Option ℕ → Fraction → Event
  stopped : Event

-- The `rate_limited` error of #onBare pauses the queue.
unfoldable pub pause : ℕ → ℕ → Agent → Agent
pause now ms a = record a { paused_until = now + ms }

unfoldable pub step : (Outgoing → Bool) → ℕ → Event → Agent → Agent
step accepts now (send client_ids conversation_id frame) a =
    enqueue accepts now client_ids conversation_id frame a
step accepts now (ack conversation_id client_id seq) a =
    on_ack accepts now conversation_id client_id seq a
step accepts now (send_error random error) a = on_send_error accepts now random error a
step accepts now (rate_limited ms) a = pause now ms a
step accepts now (retry entry) a = retry_fired accepts now entry a
step accepts now ticked a = tick accepts now a
step accepts now pump_again a = pump_timer_fired accepts now a
step accepts now welcome a = on_welcome accepts now a
step accepts now (closed code retry_after_ms random) a = on_close code retry_after_ms random a
step accepts now stopped a = stop_end a

-- A run: the time since the last event, what the socket answers, and the event.
unfoldable pub run : ℕ → List (ℕ × (Outgoing → Bool) × Event) → Agent → Agent
run now [] a = a
run now ((wait, accepts, e) ∷ es) a = run (now + wait) es (step accepts (now + wait) e a)

-- When the last event of a run happens.
abbrev pub end_of : ℕ → List (ℕ × (Outgoing → Bool) × Event) → ℕ
end_of now [] = now
end_of now ((wait, accepts, e) ∷ es) = end_of (now + wait) es

-- The tokens that a refill at a time would leave.
level : ℕ → Agent → ℕ
level now a = min (a.fps * 1000) (a.millitokens + (now - a.tokens_at) * a.fps)

wait_fps :
    (now w since fps : ℕ) → since ≤ now → (now + w - since) * fps ≡ (now - since) * fps + w * fps
wait_fps now w since fps h = grind arith

level_wait :
    (now w : ℕ) (a : Agent) → a.tokens_at ≤ now → level (now + w) a ≤ level now a + w * a.fps
unfolding level
level_wait now w a h = ground (arith, wait_fps now w a.tokens_at a.fps h)

level-refill : (now : ℕ) (a : Agent) → (refill now a).millitokens ≡ level now a
unfolding refill level
level-refill now a = refl

-- At the time of the last refill, the tokens are all that there is.
level-now : (now : ℕ) (a : Agent) → a.tokens_at ≡ now → level now a ≤ a.millitokens
unfolding level
level-now now a h = ground (arith, ap (λ (n : ℕ). (now - n) * a.fps) h, no_wait now a.fps)
  where
    no_wait : (n fps : ℕ) → (n - n) * fps ≡ 0
    no_wait n fps = grind arith

-- An event at a time spends the tokens that there are then, and no others.
record Pays (now : ℕ) (a b : Agent) : Type 0 where
  paid : spent b + level now b ≤ spent a + level now a
  since : b.tokens_at ≤ now
  rate : b.fps ≡ a.fps

level-IsQuiet : (now : ℕ) {a b : Agent} → IsQuiet a b → level now b ≡ level now a
unfolding level
level-IsQuiet now {a = a} {b = b} q = rw (q.tokens, q.since, q.rate) refl

Pays-quiet : {now : ℕ} {a b c : Agent} → IsQuiet a b → Pays now b c → Pays now a c
Pays-quiet {now = now} q p = ground (arith, level-IsQuiet now q)

IsQuiet-Pays : {now : ℕ} {a b : Agent} → a.tokens_at ≤ now → IsQuiet a b → Pays now a b
IsQuiet-Pays {now = now} h q = ground (arith, level-IsQuiet now q)

loop-Pays :
    (accepts : Outgoing → Bool) (now : ℕ) (a : Agent)
    → Pays now a (pump_loop accepts now a.queue (refill now a))
unfolding refill
loop-Pays accepts now a =
    let (paid, since, rate) = spent-pump_loop accepts now a.queue (refill now a) in
    ground (
      arith,
      paid,
      since,
      rate,
      level-refill now a,
      level-now now (pump_loop accepts now a.queue (refill now a)),
    )

Pays-if :
    {now : ℕ} {a b c : Agent} (test : Bool)
    → Pays now a b
    → Pays now a c
    → Pays now a (if test then b else c)
Pays-if true p q = p
Pays-if false p q = q

pump-Pays :
    (accepts : Outgoing → Bool) (now : ℕ) (a : Agent)
    → a.tokens_at ≤ now
    → Pays now a (pump accepts now a)
unfolding pump
pump-Pays accepts now a h = Pays-if {b = a} _ (IsQuiet-Pays h (ground arith)) (
    Pays-if {b = record a { pump_timer = some a.paused_until }} _ (IsQuiet-Pays h (ground arith))
      (loop-Pays accepts now a))

-- A quiet change and then a pump.
quiet_pump :
    (accepts : Outgoing → Bool) {now : ℕ} {a : Agent} (b : Agent)
    → a.tokens_at ≤ now
    → IsQuiet a b
    → Pays now a (pump accepts now b)
quiet_pump accepts {now = now} b h q =
    Pays-quiet q (pump-Pays accepts now b (omega (arith, q.since)))

enqueue-Pays :
    (accepts : Outgoing → Bool) (now : ℕ) (client_ids : ℕ → String) (conversation_id : String)
    (frame : Frame) (a : Agent)
    → a.tokens_at ≤ now
    → Pays now a (enqueue accepts now client_ids conversation_id frame a)
unfolding enqueue
enqueue-Pays accepts now client_ids conversation_id frame a h =
    Pays-if _ (IsQuiet-Pays h (settle_now-IsQuiet (rejected a.promises "closed") a refl)) (
      Pays-if _ (IsQuiet-Pays h (settle_now-IsQuiet (resolved a.promises none) a refl))
        (quiet_pump accepts _ h (queue_frame-IsQuiet now client_ids conversation_id frame a)))

on_ack-Pays :
    (accepts : Outgoing → Bool) (now : ℕ) (conversation_id client_id : String) (seq : Option ℕ)
    (a : Agent)
    → a.tokens_at ≤ now
    → Pays now a (on_ack accepts now conversation_id client_id seq a)
unfolding on_ack
on_ack-Pays accepts now conversation_id client_id seq a h =
    let b = track conversation_id seq a in
    let k = key conversation_id client_id in
    let tracked = track-IsQuiet conversation_id seq a in
    elim (Option-cases (Map.get k b.inflight)) [
      | inl unknown ↦ rw (unknown, on_ack) (IsQuiet-Pays h tracked)
      | inr (entry, known) ↦
          rw (known, on_ack)
            (quiet_pump accepts _ h (
              IsQuiet-trans tracked
                (answer-IsQuiet k (resolved entry.promise (some client_id)) b refl)))
    ]

on_send_error-Pays :
    (accepts : Outgoing → Bool) (now : ℕ) (random : Fraction) (error : AgentError) (a : Agent)
    → a.tokens_at ≤ now
    → Pays now a (on_send_error accepts now random error a)
unfolding on_send_error
on_send_error-Pays accepts now random error a h =
    let k = key (or_empty error.conversation_id) (or_empty error.client_id) in
    elim (Option-cases (Map.get k a.inflight)) [
      | inl unknown ↦
          rw (unknown, on_send_error)
            (IsQuiet-Pays h (put-IsQuiet (emitted error.code ∷ []) a (ground arith) refl))
      | inr (entry, known) ↦
          rw (known, on_send_error)
            (quiet_pump accepts _ h (
              answer-IsQuiet k (send_error_output random error entry a) a
                (written_of-send_error_output random error entry a)))
    ]

retry_fired-Pays :
    (accepts : Outgoing → Bool) (now : ℕ) (entry : Outgoing) (a : Agent)
    → a.tokens_at ≤ now
    → Pays now a (retry_fired accepts now entry a)
unfolding retry_fired
retry_fired-Pays accepts now entry a h =
    Pays-if {b = a} _ (IsQuiet-Pays h (ground arith))
      (quiet_pump accepts (record a { queue = entry ∷ a.queue }) h (ground arith))

tick-Pays :
    (accepts : Outgoing → Bool) (now : ℕ) (a : Agent)
    → a.tokens_at ≤ now
    → Pays now a (tick accepts now a)
unfolding tick
tick-Pays accepts now a h =
    quiet_pump accepts _ h
      (IsQuiet-trans (expire-IsQuiet now a) (tick_inflight-IsQuiet now a.inflight _))

pump_timer_fired-Pays :
    (accepts : Outgoing → Bool) (now : ℕ) (a : Agent)
    → a.tokens_at ≤ now
    → Pays now a (pump_timer_fired accepts now a)
unfolding pump_timer_fired
pump_timer_fired-Pays accepts now a h =
    quiet_pump accepts (record a { pump_timer = none }) h (ground arith)

on_welcome-Pays :
    (accepts : Outgoing → Bool) (now : ℕ) (a : Agent)
    → a.tokens_at ≤ now
    → Pays now a (on_welcome accepts now a)
unfolding on_welcome
on_welcome-Pays accepts now a h = quiet_pump accepts _ h (welcomed-IsQuiet a)

step-Pays :
    (accepts : Outgoing → Bool) (now : ℕ) (e : Event) (a : Agent)
    → a.tokens_at ≤ now
    → Pays now a (step accepts now e a)
unfolding step pause
step-Pays accepts now (send client_ids conversation_id frame) a h =
    enqueue-Pays accepts now client_ids conversation_id frame a h
step-Pays accepts now (ack conversation_id client_id seq) a h =
    on_ack-Pays accepts now conversation_id client_id seq a h
step-Pays accepts now (send_error random error) a h =
    on_send_error-Pays accepts now random error a h
step-Pays accepts now (rate_limited ms) a h = IsQuiet-Pays h (ground arith)
step-Pays accepts now (retry entry) a h = retry_fired-Pays accepts now entry a h
step-Pays accepts now ticked a h = tick-Pays accepts now a h
step-Pays accepts now pump_again a h = pump_timer_fired-Pays accepts now a h
step-Pays accepts now welcome a h = on_welcome-Pays accepts now a h
step-Pays accepts now (closed code retry_after_ms random) a h =
    IsQuiet-Pays h (on_close-IsQuiet code retry_after_ms random a)
step-Pays accepts now stopped a h = IsQuiet-Pays h (stop_end-IsQuiet a)

waited : (now wait fps : ℕ) → fps * (now + wait) ≡ fps * now + wait * fps
waited now wait fps = grind arith

spent-run :
    (fps now : ℕ) (es : List (ℕ × (Outgoing → Bool) × Event)) (a : Agent)
    → a.tokens_at ≤ now
    → a.fps ≡ fps
    → spent (run now es a) + fps * now ≤ spent a + level now a + fps * end_of now es
unfolding run
spent-run fps now [] a h rate = omega arith
spent-run fps now ((wait, accepts, e) ∷ es) a h rate =
    let b = step accepts (now + wait) e a in
    let p = step-Pays accepts (now + wait) e a (omega arith) in
    omega (
      arith,
      p.paid,
      level_wait now wait a h,
      ap (λ (n : ℕ). wait * n) rate,
      waited now wait fps,
      spent-run fps (now + wait) es b p.since (p.rate ∙ rate),
    )

now-le-end_of : (now : ℕ) (es : List (ℕ × (Outgoing → Bool) × Event)) → now ≤ end_of now es
now-le-end_of now [] = omega arith
now-le-end_of now ((wait, accepts, e) ∷ es) = omega (arith, now-le-end_of (now + wait) es)

between : (fps now end : ℕ) → now ≤ end → fps * (end - now) + fps * now ≡ fps * end
between fps now end h = grind arith

level_max : (now : ℕ) (a : Agent) → level now a ≤ a.fps * 1000
unfolding level
level_max now a = omega arith

-- Over any run that starts at a time, not before the last refill, and ends at another, whatever the
-- events and the socket's answers are, the agent writes at most `fps` frames and `fps` more for each
-- second.
pub rate_limit :
    (now : ℕ) (es : List (ℕ × (Outgoing → Bool) × Event)) (a : Agent)
    → a.tokens_at ≤ now
    → 1000 * length (written_of (run now es a).outputs)
      ≤ 1000 * length (written_of a.outputs) + 1000 * a.fps + a.fps * (end_of now es - now)
rate_limit now es a h = omega (
  arith,
  spent-run a.fps now es a h refl,
  level_max now a,
  between a.fps now (end_of now es) (now-le-end_of now es),
)
