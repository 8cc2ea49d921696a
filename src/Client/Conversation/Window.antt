-- ===== src/Client/Conversation/Window.antt =====
-- conversation.ts: `#flush` and the number of sends in flight.
use converger.Prelude.{
  ◌≤◌, ◌≡◌, String, List, [], ◌∷◌, string_eq, length, arith, Bool-cases, inl, inr,
}
use converger.Js.Set
use converger.Client.Outbox.Entries.{OutboxEntry, ids, ids-bump}
use converger.Client.Outbox.Store
use converger.Client.Conversation.State.{Sending, Env, Conversation}
use converger.Client.Conversation.Outbound.{flush_one, flush_loop, flush}

abbrev pub IsWithinWindow : Sending → Type 0
IsWithinWindow s = length s.in_flight ≤ s.max_in_flight

flush_one-IsWithinWindow :
    (env : Env) (e : OutboxEntry) (s : Sending)
    → IsWithinWindow s
    → IsWithinWindow (flush_one env e s).0
unfolding flush_one
flush_one-IsWithinWindow env e s h = ground (arith, Set.length-add e.client_id s.in_flight)

flush_loop-IsWithinWindow :
    (env : Env) (es : List OutboxEntry) (s : Sending)
    → IsWithinWindow s
    → IsWithinWindow (flush_loop env es s)
unfolding flush_loop
flush_loop-IsWithinWindow env [] s h = h
flush_loop-IsWithinWindow env (e ∷ es) s h = ground (
  arith,
  flush_one-IsWithinWindow env e s h,
  flush_loop-IsWithinWindow env es (flush_one env e s).0,
)

-- Flushing keeps a number of sends in flight that is within the limit within it.
pub flush-IsWithinWindow :
    (env : Env) (c : Conversation) → IsWithinWindow c.sending → IsWithinWindow (flush env c).sending
unfolding flush
flush-IsWithinWindow env c h =
    ground (arith, flush_loop-IsWithinWindow env c.sending.store.entries c.sending h)

pub entries-touch : (id : String) (s : Store.Store) → ids (Store.touch id s).entries ≡ ids s.entries
unfolding Store.touch
entries-touch id s = ground (arith, ids-bump id s.entries)

-- A round changes neither the ids of the outbox nor the promises that wait.
pub record IsQuiet (s t : Sending) : Type 0 where
  pub same_ids : ids t.store.entries ≡ ids s.store.entries
  pub same_waiting : t.waiting ≡ s.waiting
  pub same_window : t.max_in_flight ≡ s.max_in_flight

flush_one-IsQuiet : (env : Env) (e : OutboxEntry) (s : Sending) → IsQuiet s (flush_one env e s).0
unfolding flush_one
flush_one-IsQuiet env e s = ground (arith, entries-touch e.client_id s.store)

IsQuiet-trans : {s t u : Sending} → IsQuiet s t → IsQuiet t u → IsQuiet s u
IsQuiet-trans h k = ground arith

flush_loop-IsQuiet :
    (env : Env) (es : List OutboxEntry) (s : Sending) → IsQuiet s (flush_loop env es s)
unfolding flush_loop
flush_loop-IsQuiet env [] s = ground arith
flush_loop-IsQuiet env (e ∷ es) s =
    let first = flush_one-IsQuiet env e s in
    let later = IsQuiet-trans first (flush_loop-IsQuiet env es (flush_one env e s).0) in
    elim (Bool-cases (flush_one env e s).1) [ inl h ↦ rw h later | inr h ↦ rw h first ]

pub flush-IsQuiet : (env : Env) (c : Conversation) → IsQuiet c.sending (flush env c).sending
unfolding flush
flush-IsQuiet env c = ground (arith, flush_loop-IsQuiet env c.sending.store.entries c.sending)
