-- ===== src/Emitter/Nested.antt =====
-- emitter.ts: an `emit` within an `emit`.
use converger.Prelude.{
  ℕ, suc, ◌+◌, ◌≡◌, refl, ◌∙◌, ap, Bool, true, false, String, List, [], ◌∷◌, ◌++◌, arith,
  append_assoc, string_eq, nat_eq,
}
use converger.Emitter.{
  Emitter, listeners_of, emits, Behaviour, count, act, act_all, log_call, call, call_each, emit,
}
use converger.Emitter.Calls.{calls-off}

count-append : (id : ℕ) (ks ls : List ℕ) → count id (ks ++ ls) ≡ count id ks + count id ls
count-append id [] ls = omega arith
count-append id (k ∷ ks) ls = ground (arith, count-append id ks ls)

-- A listener does nothing on a call, and throws nothing.
pub record IsIdle (does : Behaviour) (id n : ℕ) : Type 0 where
  pub acts : does.acts id n ≡ []
  pub throws : does.throws id n ≡ false

-- A listener emits an event on a call, and no more.
pub record IsEmitting (does : Behaviour) (event : String) (id n : ℕ) : Type 0 where
  pub acts : does.acts id n ≡ emits event ∷ []
  pub throws : does.throws id n ≡ false

-- A call of a listener that does nothing.
call_idle :
    (again : String → Emitter → Emitter) (does : Behaviour) (event : String) (id : ℕ) (one : Bool)
    (e : Emitter)
    → IsIdle does id (count id e.calls)
    → (call again does event id one e).calls ≡ e.calls ++ id ∷ []
unfolding call act_all log_call
call_idle again does event id true e h =
    rw (h.acts, h.throws) (ap (λ (ks : List ℕ). ks ++ id ∷ []) (calls-off event id e))
call_idle again does event id false e h = rw (h.acts, h.throws) refl

-- A call of a listener that emits its event.
call_emitting :
    (again : String → Emitter → Emitter) (does : Behaviour) (event : String) (id : ℕ) (e : Emitter)
    → IsEmitting does event id (count id e.calls)
    → call again does event id false e ≡ again event (log_call id e)
unfolding call act_all act
call_emitting again does event id e h = rw (h.acts, h.throws) refl

-- An emit of an event with two listeners.
emit_two :
    (n : ℕ) (does : Behaviour) (event : String) (a b : ℕ) (e : Emitter)
    → listeners_of event e ≡ (a, false) ∷ (b, true) ∷ []
    → emit (suc n) does event e
      ≡ call (emit n does) does event b true (call (emit n does) does event a false e)
unfolding emit call_each
emit_two n does event a b e h = rw h refl

log_call_listeners :
    (event : String) (id : ℕ) (e : Emitter)
    → listeners_of event (log_call id e) ≡ listeners_of event e
unfolding listeners_of log_call
log_call_listeners event id e = refl

calls-log_call : (id : ℕ) (e : Emitter) → (log_call id e).calls ≡ e.calls ++ id ∷ []
unfolding log_call
calls-log_call id e = refl

-- The inner emit, where the first listener was called once.
inner_calls :
    (n : ℕ) (does : Behaviour) (event : String) (a b : ℕ) (e : Emitter)
    → listeners_of event e ≡ (a, false) ∷ (b, true) ∷ []
    → count a e.calls ≡ 1
    → IsIdle does a 1
    → ((m : ℕ) → IsIdle does b m)
    → (emit (suc n) does event e).calls ≡ e.calls ++ a ∷ b ∷ []
inner_calls n does event a b e h c d q =
    let e1 = call (emit n does) does event a false e in
    rw (emit_two n does event a b e h) (
      ground (
        arith,
        call_idle (emit n does) does event b true e1 (q (count b e1.calls)),
        call_idle (emit n does) does event a false e (rw c d),
        append_assoc e.calls (a ∷ []) (b ∷ []),
      ))

-- Where an event has two listeners and no more, of which the first, on its first call, emits the event again and does
-- nothing else, and on its second does nothing, and the second was given to `once` and does nothing, one `emit` of the
-- event calls the first, the first, the second and the second: the listener of `once` twice.
pub once_called_twice :
    (n : ℕ) (does : Behaviour) (event : String) (a b : ℕ) (e : Emitter)
    → listeners_of event e ≡ (a, false) ∷ (b, true) ∷ []
    → count a e.calls ≡ 0
    → IsEmitting does event a 0
    → IsIdle does a 1
    → ((m : ℕ) → IsIdle does b m)
    → (emit (suc (suc n)) does event e).calls ≡ e.calls ++ a ∷ a ∷ b ∷ b ∷ []
once_called_twice n does event a b e h c d d1 q =
    let again = emit (suc n) does in
    let e0 = log_call a e in
    let e1 = call again does event a false e in
    let inner =
      inner_calls n does event a b e0 (log_call_listeners event a e ∙ h)
        (ground (arith, calls-log_call a e, count-append a e.calls (a ∷ []), c)) d1 q in
    rw (emit_two (suc n) does event a b e h) (
      ground (
        arith,
        call_idle again does event b true e1 (q (count b e1.calls)),
        call_emitting again does event a e (rw c d),
        inner,
        calls-log_call a e,
        append_assoc e.calls (a ∷ []) (a ∷ b ∷ []),
        append_assoc e.calls (a ∷ a ∷ b ∷ []) (b ∷ []),
      ))
