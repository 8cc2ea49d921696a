-- ===== src/Agent/Reply/Stream/Ends.antt =====
-- reply.ts: the chain of a stream's flushes, run to its end.
use converger.Prelude.{ℕ, zero, suc, ◌-◌, ◌≤◌, ◌<◌, ◌≡◌, refl, true, false, arith, nat_eq}
use converger.Agent.Reply.Stream.{
  waiting, ended, StreamImpl, is_open, flush, next_flush, chunk_sent, end, flushed,
}

-- The rounds of the chain: the next flush, and the end of its send.
unfoldable pub run_chain : ℕ → ℕ → StreamImpl → StreamImpl
run_chain zero next s = s
run_chain (suc n) next s = run_chain n next (chunk_sent (next_flush next (chunk_sent s)))

round :
    (next : ℕ) (s : StreamImpl)
    → ((chunk_sent (next_flush next (chunk_sent s))).flushes ≡ s.flushes - 1)
      × ((chunk_sent (next_flush next (chunk_sent s))).ending ≡ s.ending)
      × ((chunk_sent (next_flush next (chunk_sent s))).on_wire ≡ false)
unfolding chunk_sent next_flush
round next s = ground arith

run_chain-flushes :
    (n next : ℕ) (s : StreamImpl)
    → s.on_wire ≡ false
    → s.flushes ≤ n
    → ((run_chain n next s).flushes ≡ 0)
      × ((run_chain n next s).ending ≡ s.ending)
      × ((run_chain n next s).on_wire ≡ false)
unfolding run_chain
run_chain-flushes zero next s w h = ground arith
run_chain-flushes (suc n) next s w h =
    ground
      (arith, round next s, run_chain-flushes n next (chunk_sent (next_flush next (chunk_sent s))))

flushed-ends :
    (s : StreamImpl)
    → s.ending ≡ waiting
    → s.flushes ≡ 0
    → s.on_wire ≡ false
    → (flushed s).ending ≡ ended
unfolding flushed
flushed-ends s e f w = ground arith

end-waits :
    (s : StreamImpl)
    → is_open s.ending ≡ true
    → ((end s).ending ≡ waiting) × ((end s).flushes ≡ suc s.flushes) × ((end s).on_wire ≡ s.on_wire)
unfolding end flush
end-waits s o = ground arith

chunk_sent_same :
    (s : StreamImpl)
    → ((chunk_sent s).ending ≡ s.ending)
      × ((chunk_sent s).flushes ≡ s.flushes)
      × ((chunk_sent s).on_wire ≡ false)
unfolding chunk_sent
chunk_sent_same s = (refl, refl, refl)

-- A stream that is ended while open is over once its send on the wire is over, and the flushes that it has, its own
-- last one included, each had its turn.
pub stream_ends :
    (n next : ℕ) (s : StreamImpl)
    → is_open s.ending ≡ true
    → s.flushes < n
    → (flushed (run_chain n next (chunk_sent (end s)))).ending ≡ ended
stream_ends n next s o h =
    let t = chunk_sent (end s) in
    ground (
      arith,
      end-waits s o,
      chunk_sent_same (end s),
      run_chain-flushes n next t,
      flushed-ends (run_chain n next t),
    )
