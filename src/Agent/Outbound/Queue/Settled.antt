-- ===== src/Agent/Outbound/Queue/Settled.antt =====
-- agent.ts: the promises of the sends in the queue and in flight when the agent stops or its connection is lost for good.
use converger.Prelude.{
  ℕ, ◌≡◌, refl, ap, Bool, true, false, Option, none, String, List, [], ◌∷◌, ◌++◌, string_eq, nat_eq,
  if◌then◌else◌, arith, ◌⊎◌, inl, inr,
}
use mathlib.Core.List.{Memᴰ}
use mathlib.Core.List.Memᴰ
use converger.Backoff.{Fraction}
use converger.Agent.Outbound.{
  Outgoing, Agent, Output, resolved, rejected, emitted, disconnected, put,
}
use converger.Agent.Outbound.Queue.{
  drop_transient, drop_entry, reject_all, values, on_close, lose_socket, fail_pending, is_fatal,
  stop_end, reject_start, close_code_error,
}

-- A send that waits in the queue or for its ack; one that waits for its delayed resend is in neither.
abbrev pub IsHeld : Outgoing → Agent → Type 0
IsHeld e a = Memᴰ e a.queue ⊎ Memᴰ e (values a.inflight)

-- The promise of a send is settled.
abbrev pub IsSettled : Outgoing → List Output → Type 0
IsSettled e os =
    Memᴰ (resolved e.promise none) os ⊎ ((code : String) × Memᴰ (rejected e.promise code) os)

rejected_all :
    (code : String) (e : Outgoing) (es : List Outgoing)
    → Memᴰ e es
    → Memᴰ (rejected e.promise code) (reject_all code es)
unfolding reject_all
rejected_all code e [] h = elim h [ ]
rejected_all code e (x ∷ es) (Memᴰ.head h) =
    Memᴰ.head (ap (λ (y : Outgoing). rejected y.promise code) h)
rejected_all code e (x ∷ es) (Memᴰ.tail h) = Memᴰ.tail (rejected_all code e es h)

IsSettled-right : (e : Outgoing) (os ps : List Output) → IsSettled e ps → IsSettled e (os ++ ps)
IsSettled-right e os ps (inl h) = inl (Memᴰ.append_right os h)
IsSettled-right e os ps (inr (code, h)) = inr (code, Memᴰ.append_right os h)

IsSettled-left : (e : Outgoing) (os ps : List Output) → IsSettled e os → IsSettled e (os ++ ps)
IsSettled-left e os ps (inl h) = inl (Memᴰ.append_left ps h)
IsSettled-left e os ps (inr (code, h)) = inr (code, Memᴰ.append_left ps h)

IsSettled-reject_all :
    (code : String) (e : Outgoing) (a : Agent)
    → IsHeld e a
    → IsSettled e (reject_all code (a.queue ++ values a.inflight))
IsSettled-reject_all code e a (inl h) =
    inr (code, rejected_all code e _ (Memᴰ.append_left (values a.inflight) h))
IsSettled-reject_all code e a (inr h) =
    inr (code, rejected_all code e _ (Memᴰ.append_right a.queue h))

-- The end of a stop settles every send of the queue and every send in flight, and leaves both empty.
pub stop_settles :
    (a : Agent) (e : Outgoing)
    → IsHeld e a
    → IsSettled e (stop_end a).outputs × ((stop_end a).queue ≡ []) × ((stop_end a).inflight ≡ [])
unfolding stop_end put
stop_settles a e h = (
  IsSettled-right e a.outputs _
      (IsSettled-left e _ (reject_start "closed" a) (IsSettled-reject_all "closed" e a h)),
  refl,
  refl,
)

drop_case :
    (e x : Outgoing) (b : Bool) (rest : List Outgoing × List Output)
    → (e ≡ x) ⊎ (Memᴰ e rest.0 ⊎ Memᴰ (resolved e.promise none) rest.1)
    → Memᴰ e (drop_entry b x rest).0 ⊎ Memᴰ (resolved e.promise none) (drop_entry b x rest).1
drop_case e x true rest (inl p) =
    inr (Memᴰ.append_right rest.1 (Memᴰ.head (ap (λ (y : Outgoing). resolved y.promise none) p)))
drop_case e x false rest (inl p) = inl (Memᴰ.head p)
drop_case e x true rest (inr (inl m)) = inl m
drop_case e x true rest (inr (inr m)) = inr (Memᴰ.append_left _ m)
drop_case e x false rest (inr (inl m)) = inl (Memᴰ.tail m)
drop_case e x false rest (inr (inr m)) = inr m

-- A queued entry stays, or its promise is resolved.
drop_cases :
    (e : Outgoing) (queue : List Outgoing)
    → Memᴰ e queue
    → Memᴰ e (drop_transient queue).0 ⊎ Memᴰ (resolved e.promise none) (drop_transient queue).1
unfolding drop_transient
drop_cases e [] h = elim h [ ]
drop_cases e (x ∷ queue) (Memᴰ.head p) = drop_case e x _ (drop_transient queue) (inl p)
drop_cases e (x ∷ queue) (Memᴰ.tail m) =
    drop_case e x _ (drop_transient queue) (inr (drop_cases e queue m))

fail_pending_settles :
    (code : ℕ) (a : Agent) (e : Outgoing)
    → IsHeld e a ⊎ IsSettled e a.outputs
    → IsSettled e (fail_pending code a).outputs
unfolding fail_pending put
fail_pending_settles code a e (inl h) =
    let error = close_code_error code in
    IsSettled-right e a.outputs _ (
      IsSettled-right e
        (disconnected code none ∷ (if a.ever_connected then emitted error ∷ [] else [])
          ++ reject_start error a)
        _ (IsSettled-reject_all (close_code_error code) e a h))
fail_pending_settles code a e (inr h) = IsSettled-left e a.outputs _ h

lose_socket_cases :
    (a : Agent) (e : Outgoing)
    → IsHeld e a
    → IsHeld e (lose_socket a) ⊎ IsSettled e (lose_socket a).outputs
unfolding lose_socket put
lose_socket_cases a e (inr h) = inl (inr h)
lose_socket_cases a e (inl h) = elim (drop_cases e a.queue h) [
  | inl kept ↦ inl (inl kept)
  | inr dropped ↦ inr (inl (Memᴰ.append_right a.outputs dropped))
]

on_close-fatal :
    (code : ℕ) (retry_after_ms : Option ℕ) (random : Fraction) (a : Agent)
    → a.running ≡ true
    → is_fatal code a ≡ true
    → on_close code retry_after_ms random a ≡ fail_pending code (lose_socket a)
unfolding on_close lose_socket is_fatal put
on_close-fatal code retry_after_ms random a up fatal = ground arith

fail_pending_empty :
    (code : ℕ) (a : Agent)
    → ((fail_pending code a).queue ≡ [])
      × ((fail_pending code a).inflight ≡ [])
      × ((fail_pending code a).running ≡ false)
unfolding fail_pending put
fail_pending_empty code a = (refl, refl, refl)

-- A close code that is fatal, of an agent that runs, settles every send of the queue and every send in flight, leaves
-- both empty and stops the agent.
pub fatal_close_settles :
    (code : ℕ) (retry_after_ms : Option ℕ) (random : Fraction) (a : Agent) (e : Outgoing)
    → a.running ≡ true
    → is_fatal code a ≡ true
    → IsHeld e a
    → let b = on_close code retry_after_ms random a in
      IsSettled e b.outputs × (b.queue ≡ []) × (b.inflight ≡ []) × (b.running ≡ false)
fatal_close_settles code retry_after_ms random a e up fatal h =
    let empty = fail_pending_empty code (lose_socket a) in
    let settled = fail_pending_settles code (lose_socket a) e (lose_socket_cases a e h) in
    rw (on_close-fatal code retry_after_ms random a up fatal) (settled, empty.0, empty.1, empty.2)
