-- ===== src/Agent/Reply/Finished.antt =====
-- reply.ts: what the frames of a reply show at the end of #finish, whatever comes between its sends.
use converger.Prelude.{ℕ, ◌≡◌, String, List, [], ◌∷◌, string_eq}
use converger.Js.Map
use converger.Js.Map.{Map}
use converger.Agent.Reply.Stream.{Text}
use converger.Agent.Reply.{closing, Reply}
use converger.Agent.Reply.Run.{
  Step, status_set, message_sent, ui_shown, typing_set, asked, interrupt_sent, stream_flushed,
  stream_closed, step,
}
use converger.Agent.Reply.Calm.{Calm}
use converger.Agent.Reply.Ends.{Ends}

-- Steps after `end`: typing is not called, and from where the streams are over, the handler sends nothing that a client
-- is shown, sets no status, and no stream sends.
abbrev pub IsHarmless : Step → Reply → Type 0
IsHarmless (typing_set refreshes on) r = ⊥
IsHarmless (status_set status) r = r.phase ≡ closing
IsHarmless (message_sent kind payload) r = r.phase ≡ closing
IsHarmless (ui_shown component id) r = r.phase ≡ closing
IsHarmless (asked id) r = r.phase ≡ closing
IsHarmless interrupt_sent r = r.phase ≡ closing
IsHarmless (stream_flushed k) r = r.phase ≡ closing
IsHarmless (stream_closed k) r = r.phase ≡ closing
IsHarmless _ r = Unit

abbrev pub AllHarmless : (ℕ → String) → (Text → String) → List Step → Reply → Type 0
AllHarmless text_of payload_of [] r = Unit
AllHarmless text_of payload_of (e ∷ es) r =
    IsHarmless e r × AllHarmless text_of payload_of es (step text_of payload_of e r)
