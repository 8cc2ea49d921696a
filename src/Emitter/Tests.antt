-- ===== src/Emitter/Tests.antt =====
-- The emitter on concrete inputs.
use converger.Prelude.{ℕ, zero, suc, ◌≡◌, refl, true, false, List, [], ◌∷◌, string_eq}
use converger.Js.Map
use converger.Emitter.{Emitter, Action, Behaviour, unsubscribes, emits, emit, listeners_of}
use converger.Emitter.Calls.{AllQuiet, calls-emit}
use converger.Emitter.Nested.{IsIdle, once_called_twice}

abbrev two_listeners : Emitter
two_listeners = record { listeners = ("message", (1, false) ∷ (2, true) ∷ []) ∷ []; calls = [] }

-- Each listener takes the second off and throws; the error handler takes the first off.
abbrev takes_off : Behaviour
takes_off = record {
  acts = λ k m. unsubscribes "message" 2 ∷ [];
  throws = λ k m. true;
  on_error = λ k m. unsubscribes "message" 1 ∷ [];
}

takes_off-AllQuiet : AllQuiet takes_off
takes_off-AllQuiet k m = ((tt, tt), λ e. (tt, tt))

two_there : listeners_of "message" two_listeners ≡ (1, false) ∷ (2, true) ∷ []
unfolding listeners_of Map.get
two_there = refl

calls-emit_example : (emit 1 takes_off "message" two_listeners).calls ≡ 1 ∷ 2 ∷ []
unfolding listeners_of Map.get
calls-emit_example = calls-emit 0 takes_off "message" two_listeners takes_off-AllQuiet

-- The first listener emits again when it is called for the first time.
abbrev first_emits : ℕ → ℕ → List Action
first_emits (suc zero) zero = emits "message" ∷ []
first_emits _ _ = []

abbrev emits_once : Behaviour
emits_once = record { acts = first_emits; throws = λ k m. false; on_error = λ k m. [] }

second-IsIdle : (m : ℕ) → IsIdle emits_once 2 m
second-IsIdle m = record { acts = refl; throws = refl }

once_called_twice_example : (emit 2 emits_once "message" two_listeners).calls ≡ 1 ∷ 1 ∷ 2 ∷ 2 ∷ []
once_called_twice_example =
    once_called_twice 0 emits_once "message" 1 2 two_listeners two_there refl
      (record { acts = refl; throws = refl }) (record { acts = refl; throws = refl }) second-IsIdle
