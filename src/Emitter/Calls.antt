-- ===== src/Emitter/Calls.antt =====
-- emitter.ts: the calls of an `emit` within which nothing emits.
use converger.Prelude.{
  ℕ, suc, ◌≡◌, refl, ◌∙◌, Bool, true, false, none, some, String, List, [], ◌∷◌, ◌++◌, All, arith,
  Bool-cases, inl, inr, if◌then◌else◌, append-nil, append_assoc, string_eq, nat_eq,
}
use converger.Emitter.{
  Listeners, Emitter, listeners_of, set_listeners, on, off, remove_all, Action, subscribes,
  unsubscribes, removes, emits, Behaviour, count, act, act_all, log_call, call, call_each, emit,
}

-- An action that is no `emit`.
abbrev pub IsQuiet : Action → Type 0
IsQuiet (subscribes event id one) = Unit
IsQuiet (unsubscribes event id) = Unit
IsQuiet (removes event) = Unit
IsQuiet (emits event) = ⊥

abbrev pub ids : Listeners → List ℕ
ids [] = []
ids ((id, one) ∷ ls) = id ∷ ids ls

pub calls-off : (event : String) (id : ℕ) (e : Emitter) → (off event id e).calls ≡ e.calls
unfolding off set_listeners
calls-off event id e = ground arith

calls-act :
    (again : String → Emitter → Emitter) (a : Action) (e : Emitter)
    → IsQuiet a
    → (act again a e).calls ≡ e.calls
unfolding act on set_listeners remove_all
calls-act again (subscribes event id one) e h = refl
calls-act again (unsubscribes event id) e h = calls-off event id e
calls-act again (removes none) e h = refl
calls-act again (removes (some event)) e h = refl
calls-act again (emits event) e h = elim h [ ]

calls-act_all :
    (again : String → Emitter → Emitter) (as' : List Action) (e : Emitter)
    → All IsQuiet as'
    → (act_all again as' e).calls ≡ e.calls
unfolding act_all
calls-act_all again [] e h = refl
calls-act_all again (a ∷ as') e h =
    calls-act_all again as' (act again a e) h.1 ∙ calls-act again a e h.0

-- Neither the listeners nor the error handler emit.
abbrev pub AllQuiet : Behaviour → Type 0
AllQuiet does =
    (k n : ℕ)
    → All IsQuiet (does.acts k n) × (does.throws k n ≡ true → All IsQuiet (does.on_error k n))

-- What a call does behind its log.
calls-turn :
    (again : String → Emitter → Emitter) (does : Behaviour) (id n : ℕ) (e : Emitter)
    → AllQuiet does
    → let e2 = act_all again (does.acts id n) e in
      (if does.throws id n then act_all again (does.on_error id n) e2 else e2).calls ≡ e.calls
calls-turn again does id n e h =
    let e2 = act_all again (does.acts id n) e in
    elim (Bool-cases (does.throws id n)) [
      | inl t ↦ rw t (
          calls-act_all again (does.on_error id n) e2 ((h id n).1 t)
          ∙ calls-act_all again (does.acts id n) e (h id n).0)
      | inr t ↦ rw t (calls-act_all again (does.acts id n) e (h id n).0)
    ]

calls-call :
    (again : String → Emitter → Emitter) (does : Behaviour) (event : String) (id : ℕ) (one : Bool)
    (e : Emitter)
    → AllQuiet does
    → (call again does event id one e).calls ≡ e.calls ++ id ∷ []
unfolding call log_call
calls-call again does event id true e h = ground (
  arith,
  calls-turn again does id (count id e.calls) (log_call id (off event id e)) h,
  calls-off event id e,
)
calls-call again does event id false e h =
    calls-turn again does id (count id e.calls) (log_call id e) h

calls-call_each :
    (again : String → Emitter → Emitter) (does : Behaviour) (event : String) (ls : Listeners)
    (e : Emitter)
    → AllQuiet does
    → (call_each again does event ls e).calls ≡ e.calls ++ ids ls
unfolding call_each
calls-call_each again does event [] e h = ground (arith, append-nil e.calls)
calls-call_each again does event ((id, one) ∷ ls) e h = ground (
  arith,
  calls-call_each again does event ls (call again does event id one e) h,
  calls-call again does event id one e h,
  append_assoc e.calls (id ∷ []) (ids ls),
)

-- Where neither a listener nor the error handler emits, an `emit` calls the listeners that its event had at the start and no others, in their
-- order, whatever they subscribe, unsubscribe or remove meanwhile.
pub calls-emit :
    (n : ℕ) (does : Behaviour) (event : String) (e : Emitter)
    → AllQuiet does
    → (emit (suc n) does event e).calls ≡ e.calls ++ ids (listeners_of event e)
unfolding emit
calls-emit n does event e h = calls-call_each (emit n does) does event (listeners_of event e) e h
