-- ===== src/Client/Transport/Phoenix/Joins.antt =====
-- phoenix.ts: the joins of a transport and the messages of those before.
use converger.Prelude.{ℕ, suc, ◌≤◌, ◌≡◌, false, Option, some, arith, nat_eq, option_eq}
use converger.Client.Transport.Phoenix.{
  Push, phx_leave, PhoenixTransport, Event, channel, emit, push, join, leave, rejoin, receive,
}

module _ {A : Type 0} where
  push_ref :
      (join_ref : Option ℕ) (p : Push) (t : PhoenixTransport A) → t.ref ≤ (push join_ref p t).1.ref
  unfolding push emit
  push_ref join_ref p t = ground arith

  leave_ref : (t : PhoenixTransport A) → t.ref ≤ (leave t).ref
  unfolding leave
  leave_ref t = ground (arith, push_ref t.join_ref phx_leave t)

  join_join_ref : (w : Option ℕ) (t : PhoenixTransport A) → (join w t).join_ref ≡ some (suc t.ref)
  unfolding join push emit
  join_join_ref w t = ground arith

  rejoin_join_ref :
      (w : ℕ) (t : PhoenixTransport A) → (rejoin w t).join_ref ≡ some (suc (leave t).ref)
  unfolding rejoin
  rejoin_join_ref w t = join_join_ref (some w) (record (leave t) { watermark = some w })

  receive-stale :
      (j : ℕ) (e : Event A) (t : PhoenixTransport A)
      → option_eq (some j) t.join_ref ≡ false
      → receive (channel (some j) e) t ≡ t
  unfolding receive
  receive-stale j e t h = ground arith

  -- After a rejoin, no message of a join before it changes anything, the answer to that join included.
  pub rejoin_ignores :
      (w j : ℕ) (e : Event A) (t : PhoenixTransport A)
      → j ≤ t.ref
      → receive (channel (some j) e) (rejoin w t) ≡ rejoin w t
  rejoin_ignores w j e t h =
      receive-stale j e (rejoin w t)
        (ground (arith, rejoin_join_ref w t, leave_ref t, nat_eq.same_iff j (suc (leave t).ref)))
