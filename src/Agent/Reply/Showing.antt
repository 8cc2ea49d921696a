-- ===== src/Agent/Reply/Showing.antt =====
-- reply.ts: what the frames of a reply show, and what the reply knows of it.
use converger.Prelude.{
  ℕ, ◌≡◌, refl, Bool, true, false, not, ◌&&◌, ◌||◌, String, List, [], ◌∷◌, ◌++◌, arith,
  if◌then◌else◌, string_eq, nat_eq, ◌==◌,
}
use converger.Agent.Reply.{
  Frame, run, message, chunk, ui, stream_done, typing, tool_call, interrupt, interrupt_resolved,
  Reply, send, send_run,
}

-- What a client shows after a frame: whether chunks are to come, whether the agent types, and how the run stands.
pub record Shown : Type 0 where
  pub streaming : Bool
  pub typing : Bool
  pub status : String

abbrev pub show : Frame → Shown → Shown
show (run status) c = record c { status = status }
show (message kind payload) c = record c { typing = false }
show (chunk id content) c = record c { streaming = true }
show (ui component id) c = record c { streaming = true }
show (stream_done id) c = record c { streaming = false }
show (typing on) c = record c { typing = on }
show (tool_call id name status started ended_at) c = c
show (interrupt id) c = c
show (interrupt_resolved id answer) c = c

abbrev pub show_all : List Frame → Shown → Shown
show_all [] c = c
show_all (f ∷ fs) c = show_all fs (show f c)

pub show_all-append :
    (fs gs : List Frame) (c : Shown) → show_all (fs ++ gs) c ≡ show_all gs (show_all fs c)
show_all-append [] gs c = refl
show_all-append (f ∷ fs) gs c = show_all-append fs gs (show f c)

abbrev pub shown_at_first : Shown
shown_at_first = record { streaming = false; typing = false; status = "" }

unfoldable pub shown : Reply → Shown
shown r = show_all r.sent shown_at_first

pub shown-send : (f : Frame) (r : Reply) → shown (send f r) ≡ show f (shown r)
unfolding shown send
shown-send f r = show_all-append r.sent (f ∷ []) shown_at_first

-- No interval runs whose handle is lost, at most one is about to run, and either goes with an indicator that is on.
abbrev pub timers_ok : Bool → Bool → ℕ → ℕ → Bool
timers_ok timer on starts stray =
    (stray == 0) && (((starts == 0) && (not timer || on)) || ((starts == 1) && (on && not timer)))

abbrev pub IsTimed : Reply → Type 0
IsTimed r = timers_ok r.typing_timer r.typing_on r.typing_starts r.stray_timers ≡ true

-- The reply knows what its frames show; without runs no status is shown.
pub record Agrees (r : Reply) : Type 0 where
  pub streaming : (shown r).streaming ≡ r.genui_open
  pub typing : (shown r).typing ≡ r.typing_on
  pub refreshing : IsTimed r
  pub running : (r.runs || ((shown r).status == "")) ≡ true

-- A step that sends nothing and changes none of what a client is shown.
pub same-Agrees :
    (r s : Reply)
    → s.sent ≡ r.sent
    → s.genui_open ≡ r.genui_open
    → s.typing_on ≡ r.typing_on
    → IsTimed s
    → s.runs ≡ r.runs
    → Agrees r
    → Agrees s
unfolding shown
same-Agrees r s p q t h u a = record {
  streaming = rw (p, q) a.streaming;
  typing = rw (p, t) a.typing;
  refreshing = h;
  running = rw (p, u) a.running;
}

-- A step that sends a frame, from a reply `s` that it first changed.
pub send-Agrees :
    (f : Frame) (r s : Reply)
    → s.sent ≡ r.sent
    → (show f (shown r)).streaming ≡ s.genui_open
    → (show f (shown r)).typing ≡ s.typing_on
    → IsTimed s
    → (s.runs || ((show f (shown r)).status == "")) ≡ true
    → Agrees (send f s)
unfolding shown send
send-Agrees f r s p g t h u =
    let e : show_all (s.sent ++ f ∷ []) shown_at_first ≡ show f (show_all r.sent shown_at_first) =
      rw p (show_all-append r.sent (f ∷ []) shown_at_first) in
    record { streaming = rw e g; typing = rw e t; refreshing = h; running = rw e u }

-- A step with a test.
pub if-Agrees :
    (b : Bool) (r s : Reply)
    → (b ≡ true → Agrees r)
    → (b ≡ false → Agrees s)
    → Agrees (if b then r else s)
if-Agrees true r s p q = p refl
if-Agrees false r s p q = q refl

pub send_run-Agrees : (status : String) (r : Reply) → Agrees r → Agrees (send_run status r)
unfolding send_run
send_run-Agrees status r a =
    if-Agrees r.runs (send (run status) r) r
      (λ e. send-Agrees (run status) r r refl a.streaming a.typing a.refreshing (ground arith))
      (λ e. a)
