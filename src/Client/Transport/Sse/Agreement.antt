-- ===== src/Client/Transport/Sse/Agreement.antt =====
-- sse.ts: the closing, the calls of the close handler and the remembered ids, at the operations on a frame.
use converger.Prelude.{
  ℕ, suc, ◌+◌, ◌≤◌, ◌≡◌, refl, Bool, true, false, String, List, [], ◌∷◌, ◌++◌, arith, string_eq,
  if◌then◌else◌, length, Option-cases, inl, inr, same_refl,
}
use converger.Js.Map
use converger.Js.Map.{Map}
use converger.Client.Frames.{ServerFrame, ActivityFrame, is_persistent}
use converger.Client.Transport.Sse.Session.{
  SseTransport, Effect, on_open, on_frame, on_close, posted, emit, finish, evict, remember, settle,
  persistent, close_on, receive, ack_of, or_option,
}

-- How often the close handler was called.
abbrev pub closes : List Effect → ℕ
closes [] = 0
closes (on_close c ∷ es) = suc (closes es)
closes (on_open ∷ es) = closes es
closes (on_frame f ∷ es) = closes es
closes (posted p ∷ es) = closes es

closes-append : (es fs : List Effect) → closes (es ++ fs) ≡ closes es + closes fs
closes-append [] fs = omega arith
closes-append (on_close c ∷ es) fs = omega (arith, closes-append es fs)
closes-append (on_open ∷ es) fs = closes-append es fs
closes-append (on_frame f ∷ es) fs = closes-append es fs
closes-append (posted p ∷ es) fs = closes-append es fs

abbrev pub due : SseTransport → ℕ
due t = if t.closed then 1 else 0

-- The calls of the close handler and the closing go together, and the remembered ids stay few.
pub record Agrees (s t : SseTransport) : Type 0 where
  pub balance : closes t.effects + due s ≡ closes s.effects + due t
  pub few : length s.recent ≤ 500 → length t.recent ≤ 500

pub Agrees-refl : (t : SseTransport) → Agrees t t
Agrees-refl t = record { balance = refl; few = λ h. h }

pub Agrees-trans : {s t u : SseTransport} → Agrees s t → Agrees t u → Agrees s u
Agrees-trans p q = record {
  balance = omega (arith, p.balance, q.balance);
  few = λ h. q.few (p.few h);
}

-- A step that changes neither.
pub same-Agrees :
    (s t : SseTransport)
    → t.effects ≡ s.effects
    → t.closed ≡ s.closed
    → t.recent ≡ s.recent
    → Agrees s t
same-Agrees s t p q r = record { balance = ground arith; few = λ h. ground arith }

-- An effect that is not the close handler's.
pub emit-Agrees : (e : Effect) (t : SseTransport) → closes (e ∷ []) ≡ 0 → Agrees t (emit e t)
unfolding emit
emit-Agrees e t h = record {
  balance = omega (arith, closes-append t.effects (e ∷ []));
  few = λ k. k;
}

pub finish-Agrees :
    (code : ℕ) (reason : String) (t : SseTransport) → Agrees t (finish code reason t)
unfolding finish emit
finish-Agrees code reason t =
    let report = on_close (record {
      code = code;
      reason = reason;
      opened = t.opened;
      retry_after_ms = t.retry_after_ms;
    }) in
    record {
      balance = ground (arith, closes-append t.effects (report ∷ []));
      few = λ h. ground arith;
    }

delete-head :
    (id : String) (seq : ℕ) (m : Map String ℕ) → length (Map.delete id ((id, seq) ∷ m)) ≤ length m
unfolding Map.delete
delete-head id seq m = ground (arith, Map.length-delete id m, same_refl id)

evict-few : (m : Map String ℕ) → length m ≤ 501 → length (evict m) ≤ 500
unfolding evict
evict-few [] h = omega arith
evict-few ((id, seq) ∷ m) h = ground (arith, delete-head id seq m)

remember-Agrees : (id : String) (seq : ℕ) (t : SseTransport) → Agrees t (remember id seq t)
unfolding remember
remember-Agrees id seq t = record {
  balance = refl;
  few = λ h. evict-few (Map.set id seq t.recent) (omega (arith, Map.length-set id seq t.recent));
}

settle-Agrees : (id : String) (seq : ℕ) (t : SseTransport) → Agrees t (settle id seq t)
unfolding settle
settle-Agrees id seq t = elim (Option-cases (Map.get id t.awaiting)) [
  | inl e ↦ rw (e, settle) (Agrees-refl t)
  | inr (c, e) ↦
      let t1 = record t { awaiting = Map.delete id t.awaiting } in
      rw (e, settle)
        (Agrees-trans (same-Agrees t t1 refl refl refl)
          (emit-Agrees (on_frame (ack_of c id seq)) t1 refl))
]

persistent-Agrees : (a : ActivityFrame) (t : SseTransport) → Agrees t (persistent a t)
unfolding persistent
persistent-Agrees a t = elim (Option-cases a.id) [
  | inl e ↦ rw (e, persistent) (Agrees-refl t)
  | inr (id, e) ↦
      rw (e, persistent)
        (Agrees-trans (remember-Agrees id a.seq t) (settle-Agrees id a.seq (remember id a.seq t)))
]

pub if-Agrees :
    {s t u : SseTransport} (b : Bool) → Agrees s t → Agrees s u → Agrees s (if b then t else u)
if-Agrees true p q = p
if-Agrees false p q = q

close_on-Agrees : (code : String) (t : SseTransport) → Agrees t (close_on code t)
unfolding close_on
close_on-Agrees code t = if-Agrees _ (finish-Agrees 4401 code t) (
    if-Agrees _ (finish-Agrees 4403 code t)
      (if-Agrees _ (finish-Agrees 1012 code t) (Agrees-refl t)))

pub receive-Agrees : (f : ServerFrame) (t : SseTransport) → Agrees t (receive f t)
unfolding receive
receive-Agrees (ServerFrame.other f) t = elim (Option-cases (is_persistent f)) [
  | inl e ↦ rw (e, receive) (emit-Agrees (on_frame (ServerFrame.other f)) t refl)
  | inr (a, e) ↦
      rw (e, receive)
        (Agrees-trans (persistent-Agrees a t)
          (emit-Agrees (on_frame (ServerFrame.other f)) (persistent a t) refl))
]
receive-Agrees (ServerFrame.error e) t =
    let t1 = record t { retry_after_ms = or_option e.retry_after_ms t.retry_after_ms } in
    let told = emit (on_frame (ServerFrame.error e)) t1 in
    Agrees-trans
      (Agrees-trans (same-Agrees t t1 refl refl refl)
        (emit-Agrees (on_frame (ServerFrame.error e)) t1 refl))
      (close_on-Agrees e.code told)
receive-Agrees (ServerFrame.welcome w) t = emit-Agrees (on_frame (ServerFrame.welcome w)) t refl
receive-Agrees (ServerFrame.ack w) t = emit-Agrees (on_frame (ServerFrame.ack w)) t refl
receive-Agrees (ServerFrame.delivery_status w) t =
    emit-Agrees (on_frame (ServerFrame.delivery_status w)) t refl
receive-Agrees (ServerFrame.presence w) t = emit-Agrees (on_frame (ServerFrame.presence w)) t refl
receive-Agrees (ServerFrame.token_refreshed w) t =
    emit-Agrees (on_frame (ServerFrame.token_refreshed w)) t refl
receive-Agrees (ServerFrame.replay_truncated v w) t =
    emit-Agrees (on_frame (ServerFrame.replay_truncated v w)) t refl
receive-Agrees (ServerFrame.heartbeat w) t = emit-Agrees (on_frame (ServerFrame.heartbeat w)) t refl
