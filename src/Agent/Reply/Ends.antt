-- ===== src/Agent/Reply/Ends.antt =====
-- reply.ts: where #finish stands, and what it closed by then.
use converger.Prelude.{
  suc, ◌≡◌, refl, Bool, true, false, String, [], ◌∷◌, arith, if◌then◌else◌, string_eq, nat_eq,
}
use converger.Agent.Reply.{
  Frame, run, stream_done, typing, Phase, answering, closing, hiding, settling, reporting, finished,
  Reply, send, send_run, is_answering, close_run, close_genui, hide_typing, finish, finish_told,
}
use converger.Agent.Reply.Showing.{
  show_all-append, shown_at_first, shown, Agrees, IsTimed, same-Agrees, send-Agrees,
  send_run-Agrees,
}

-- The phases behind a part of #finish.
abbrev is_past_typing : Phase → Bool
is_past_typing answering = false
is_past_typing closing = false
is_past_typing _ = true

abbrev is_past_genui : Phase → Bool
is_past_genui answering = false
is_past_genui closing = false
is_past_genui hiding = false
is_past_genui _ = true

abbrev is_past_run : Phase → Bool
is_past_run reporting = true
is_past_run finished = true
is_past_run _ = false

-- Where #finish stands, and what is closed by then.
pub record Ends (r : Reply) : Type 0 where
  pub agrees : Agrees r
  pub idle : r.typing_timer ≡ false
  pub told : r.typing_starts ≡ 0
  pub over : is_answering r.phase ≡ false
  pub hidden : is_past_typing r.phase ≡ true → r.typing_on ≡ false
  pub settled : is_past_genui r.phase ≡ true → r.genui_open ≡ false
  pub reported : is_past_run r.phase ≡ true → (shown r).status ≡ (if r.runs then r.status else "")

pub if-Ends :
    (b : Bool) (r s : Reply)
    → (b ≡ true → Ends r)
    → (b ≡ false → Ends s)
    → Ends (if b then r else s)
if-Ends true r s p q = p refl
if-Ends false r s p q = q refl

-- While the streams are ended, nothing else is closed.
pub closing-Ends :
    (s : Reply)
    → s.phase ≡ closing
    → s.typing_timer ≡ false
    → s.typing_starts ≡ 0
    → Agrees s
    → Ends s
closing-Ends s c t z a = record {
  agrees = a;
  idle = t;
  told = z;
  over = rw c refl;
  hidden = λ p. ground arith;
  settled = λ p. ground arith;
  reported = λ p. ground arith;
}

-- A step that changes none of what a client is shown, nor of what #finish reads.
pub plain-Ends :
    (r s : Reply)
    → Agrees s
    → shown s ≡ shown r
    → s.phase ≡ r.phase
    → s.typing_timer ≡ r.typing_timer
    → s.typing_starts ≡ r.typing_starts
    → s.runs ≡ r.runs
    → s.status ≡ r.status
    → s.genui_open ≡ r.genui_open
    → s.typing_on ≡ r.typing_on
    → Ends r
    → Ends s
unfolding shown
plain-Ends r s a h p t z u v g o w = record {
  agrees = a;
  idle = rw t w.idle;
  told = rw z w.told;
  over = rw p w.over;
  hidden = rw (p, o) w.hidden;
  settled = rw (p, g) w.settled;
  reported = rw (p, h, u, v) w.reported;
}

send_run_kept :
    (status : String) (r : Reply)
    → let s = send_run status r in
      (s.runs ≡ r.runs)
      × (s.status ≡ r.status)
      × (s.typing_timer ≡ r.typing_timer)
      × (s.typing_starts ≡ r.typing_starts)
      × (s.typing_on ≡ r.typing_on)
      × (s.genui_open ≡ r.genui_open)
      × (s.phase ≡ r.phase)
unfolding send_run send
send_run_kept status r = ground arith

shown-send_run :
    (r : Reply)
    → r.runs ≡ true
    → let s = send_run r.status r in (shown s).status ≡ (if s.runs then s.status else "")
unfolding send_run send shown
shown-send_run r h = ground (arith, h, show_all-append r.sent (run r.status ∷ []) shown_at_first)

close_run_at :
    (b : Bool) (r : Reply)
    → r.runs ≡ b
    → Agrees r
    → r.typing_timer ≡ false
    → r.typing_starts ≡ 0
    → r.typing_on ≡ false
    → r.genui_open ≡ false
    → Ends (
        if b
        then record (send_run r.status r) { phase = reporting }
        else record r { phase = finished })
unfolding shown
close_run_at true r e a t z o g =
    let s = send_run r.status r in
    let (runs, status, timer, starts, on, genui, phase) = send_run_kept r.status r in
    let b : Agrees s = send_run-Agrees r.status r a in
    let same : IsTimed s = b.refreshing in
    record {
      agrees = same-Agrees s (record s { phase = reporting }) refl refl refl same refl b;
      idle = rw timer t;
      told = rw starts z;
      over = refl;
      hidden = λ p. rw on o;
      settled = λ p. rw genui g;
      reported = λ p. shown-send_run r e;
    }
close_run_at false r e a t z o g = record {
  agrees = same-Agrees r (record r { phase = finished }) refl refl refl a.refreshing refl a;
  idle = t;
  told = z;
  over = refl;
  hidden = λ p. o;
  settled = λ p. g;
  reported = λ p. rw e (ground (arith, a.running, e, string_eq.same_iff (shown r).status ""));
}

close_run-Ends :
    (r : Reply)
    → Agrees r
    → r.typing_timer ≡ false
    → r.typing_starts ≡ 0
    → r.typing_on ≡ false
    → r.genui_open ≡ false
    → Ends (close_run r)
unfolding close_run
close_run-Ends r a t z o g = close_run_at r.runs r refl a t z o g

settling-Ends :
    (f : Frame) (s : Reply)
    → Agrees (send f s)
    → s.phase ≡ settling
    → s.typing_timer ≡ false
    → s.typing_starts ≡ 0
    → s.typing_on ≡ false
    → s.genui_open ≡ false
    → Ends (send f s)
unfolding send
settling-Ends f s a p t z o g = record {
  agrees = a;
  idle = t;
  told = z;
  over = rw p refl;
  hidden = λ q. o;
  settled = λ q. g;
  reported = λ q. ground arith;
}

close_genui-Ends :
    (r : Reply)
    → Agrees r
    → r.typing_timer ≡ false
    → r.typing_starts ≡ 0
    → r.typing_on ≡ false
    → Ends (close_genui r)
unfolding close_genui
close_genui-Ends r a t z o =
    let s = record r { genui_open = false; chunk_id = suc r.chunk_id; phase = settling } in
    let f = stream_done (suc r.chunk_id) in
    if-Ends r.genui_open (send f s) (close_run r)
      (λ e.
        settling-Ends f s (send-Agrees f r s refl refl a.typing a.refreshing a.running) refl t z o
          refl)
      (λ e. close_run-Ends r a t z o e)

hide_typing-Ends :
    (r : Reply) → Agrees r → r.typing_timer ≡ false → r.typing_starts ≡ 0 → Ends (hide_typing r)
unfolding hide_typing send
hide_typing-Ends r a t z =
    let s = record r { typing_on = false; phase = hiding } in
    if-Ends r.typing_on (send (typing false) s) (close_genui r)
      (λ e. record {
        agrees =
            send-Agrees (typing false) r s refl a.streaming refl
              (ground (arith, a.refreshing, t, z)) a.running;
        idle = t;
        told = z;
        over = refl;
        hidden = λ p. refl;
        settled = λ p. ground arith;
        reported = λ p. ground arith;
      })
      (λ e. close_genui-Ends r a t z e)

finish_at : (p : Phase) (r : Reply) → r.phase ≡ p → Ends r → Ends (finish r)
unfolding finish
finish_at closing r e w = simp (e, finish) (hide_typing-Ends r w.agrees w.idle w.told)
finish_at answering r e w = simp (e, finish) w
finish_at hiding r e w = simp (e, finish) w
finish_at settling r e w = simp (e, finish) w
finish_at reporting r e w = simp (e, finish) w
finish_at finished r e w = simp (e, finish) w

finish_told_at : (p : Phase) (r : Reply) → r.phase ≡ p → Ends r → Ends (finish_told r)
unfolding finish_told shown
finish_told_at closing r e w = simp (e, finish_told) w
finish_told_at answering r e w = simp (e, finish_told) w
finish_told_at hiding r e w =
    simp (e, finish_told) (close_genui-Ends r w.agrees w.idle w.told (w.hidden (rw e refl)))
finish_told_at settling r e w =
    simp (e, finish_told)
      (close_run-Ends r w.agrees w.idle w.told (w.hidden (rw e refl)) (w.settled (rw e refl)))
finish_told_at reporting r e w =
    simp (e, finish_told)
      (record {
        agrees =
            same-Agrees r (record r { phase = finished }) refl refl refl w.agrees.refreshing refl
              w.agrees;
        idle = w.idle;
        told = w.told;
        over = refl;
        hidden = λ p. w.hidden (rw e refl);
        settled = λ p. w.settled (rw e refl);
        reported = λ p. w.reported (rw e refl);
      })
finish_told_at finished r e w = simp (e, finish_told) w

pub finish-Ends : (r : Reply) → Ends r → Ends (finish r)
finish-Ends r w = finish_at r.phase r refl w

pub finish_told-Ends : (r : Reply) → Ends r → Ends (finish_told r)
finish_told-Ends r w = finish_told_at r.phase r refl w
