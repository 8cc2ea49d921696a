-- ===== src/Emitter.antt =====
-- packages/client-ts/src/emitter.ts and packages/agent-ts/src/emitter.ts, which agree: `TypedEmitter`. A listener, and
-- the wrapper that `once` makes of one, is a number; what listeners do when they are called is a parameter. An
-- exception of a listener goes to the error handler, which may act on the emitter like a listener.
pub mod Calls
pub mod Nested
mod Tests
use converger.Prelude.{
  ℕ, zero, suc, Bool, true, false, Option, none, some, String, List, [], ◌∷◌, ◌++◌, string_eq,
  nat_eq, ◌==◌, if◌then◌else◌,
}
use converger.Js.Map
use converger.Js.Map.{Map}

-- The listeners of an event, each with whether it is the wrapper of `once`.
abbrev pub Listeners : Type 0
Listeners = List (ℕ × Bool)

-- TypedEmitter, with the calls of listeners so far.
pub record Emitter : Type 0 where
  pub listeners : Map String Listeners
  pub calls : List ℕ

abbrev pub or_empty : Option Listeners → Listeners
or_empty none = []
or_empty (some ls) = ls

-- `this.#listeners.get(event)`, empty where there is no set.
unfoldable pub listeners_of : String → Emitter → Listeners
listeners_of event e = or_empty (Map.get event e.listeners)

unfoldable pub set_listeners : String → Listeners → Emitter → Emitter
set_listeners event ls e = record e { listeners = Map.set event ls e.listeners }

-- on, and once where `one` holds.
unfoldable pub on : String → ℕ → Bool → Emitter → Emitter
on event id one e =
    let ls = listeners_of event e in
    set_listeners event (if Map.has id ls then ls else ls ++ (id, one) ∷ []) e

-- off
unfoldable pub off : String → ℕ → Emitter → Emitter
off event id e = elim (Map.get event e.listeners) [
  | none ↦ e
  | some ls ↦ set_listeners event (Map.delete id ls) e
]

-- removeAllListeners, of one event or all.
unfoldable pub remove_all : Option String → Emitter → Emitter
remove_all none e = record e { listeners = [] }
remove_all (some event) e = record e { listeners = Map.delete event e.listeners }

-- What a listener may do to the emitter.
pub data Action : Type 0 where
  subscribes : String → ℕ → Bool → Action
  unsubscribes : String → ℕ → Action
  removes : Option String → Action
  emits : String → Action

-- What a listener does on a call, by how often it was called before, whether it throws then, and what the error
-- handler, if there is one, does with what was thrown.
pub record Behaviour : Type 0 where
  pub acts : ℕ → ℕ → List Action
  pub throws : ℕ → ℕ → Bool
  pub on_error : ℕ → ℕ → List Action

abbrev pub count : ℕ → List ℕ → ℕ
count id [] = 0
count id (k ∷ ks) = let n = count id ks in if k == id then suc n else n

-- An action, where `again` is `emit`.
unfoldable pub act : (String → Emitter → Emitter) → Action → Emitter → Emitter
act again (subscribes event id one) e = on event id one e
act again (unsubscribes event id) e = off event id e
act again (removes event) e = remove_all event e
act again (emits event) e = again event e

unfoldable pub act_all : (String → Emitter → Emitter) → List Action → Emitter → Emitter
act_all again [] e = e
act_all again (a ∷ as') e = act_all again as' (act again a e)

unfoldable pub log_call : ℕ → Emitter → Emitter
log_call id e = record e { calls = e.calls ++ id ∷ [] }

-- The call of a listener within the try; the wrapper of `once` takes itself off first.
unfoldable pub call :
    (String → Emitter → Emitter) → Behaviour → String → ℕ → Bool → Emitter → Emitter
call again does event id one e =
    let e1 = if one then off event id e else e in
    let n = count id e.calls in
    let e2 = act_all again (does.acts id n) (log_call id e1) in
    if does.throws id n then act_all again (does.on_error id n) e2 else e2

-- The loop of emit over the copy of the set.
unfoldable pub call_each :
    (String → Emitter → Emitter) → Behaviour → String → Listeners → Emitter → Emitter
call_each again does event [] e = e
call_each again does event ((id, one) ∷ ls) e =
    call_each again does event ls (call again does event id one e)

-- emit, with at most as many calls of it within each other as there is fuel.
unfoldable pub emit : ℕ → Behaviour → String → Emitter → Emitter
emit zero does event e = e
emit (suc n) does event e = call_each (emit n does) does event (listeners_of event e) e
