-- ===== src/Agent/Reply/Stream.antt =====
-- reply.ts: `StreamImpl`, a token stream. The chain of flushes is the number of those that have not begun, and whether
-- a chunk is on the wire. A text is the list of its code units.
pub mod Complete
pub mod Ends
use converger.Prelude.{
  ℕ, zero, suc, Bool, true, false, not, ◌&&◌, ◌||◌, Option, none, some, List, [], ◌∷◌, ◌++◌,
  if◌then◌else◌, length, nat_eq, ◌==◌,
}

abbrev pub Text : Type 0
Text = List ℕ

-- StreamMode
pub data StreamMode : Type 0 where
  genui text genui_text : StreamMode

-- #ending: not called, waiting for the flushes, or past them.
pub data Ending : Type 0 where
  unended waiting ended : Ending

-- What goes out through the reply: a chunk under its id, or one text message.
pub data Sent : Type 0 where
  chunk : ℕ → Text → Sent
  message : Text → Sent

pub record StreamImpl : Type 0 where
  pub mode : StreamMode
  pub chunk_id : Option ℕ
  pub buffer : Text
  pub written : Text
  pub timer : Bool
  pub flushes : ℕ
  pub on_wire : Bool
  pub ending : Ending
  pub sent : List Sent

abbrev pub new_stream : StreamMode → StreamImpl
new_stream mode = record {
  mode = mode;
  chunk_id = none;
  buffer = [];
  written = [];
  timer = false;
  flushes = 0;
  on_wire = false;
  ending = unended;
  sent = [];
}

abbrev pub is_open : Ending → Bool
is_open unended = true
is_open waiting = false
is_open ended = false

abbrev pub has_chunks : StreamMode → Bool
has_chunks genui = true
has_chunks text = false
has_chunks genui_text = true

abbrev pub has_message : StreamMode → Bool
has_message genui = false
has_message text = true
has_message genui_text = true

abbrev pub is_empty : Text → Bool
is_empty [] = true
is_empty (c ∷ s) = false

-- write, of a string; none where it throws.
unfoldable pub write : Text → StreamImpl → Option StreamImpl
write delta s =
    if not (is_open s.ending)
    then none
    else if is_empty delta
    then some s
    else if not (has_chunks s.mode)
    then some (record s { written = s.written ++ delta })
    else some (record s { written = s.written ++ delta; buffer = s.buffer ++ delta; timer = true })

-- #flush: one more link in the chain.
unfoldable pub flush : StreamImpl → StreamImpl
flush s = record s { flushes = suc s.flushes }

-- The timer's callback.
unfoldable pub timer_fired : StreamImpl → StreamImpl
timer_fired s = if s.timer then flush (record s { timer = false }) else s

abbrev pub id_or : Option ℕ → ℕ → ℕ
id_or none next = next
id_or (some id) next = id

-- The next link of the chain, where nothing is on the wire; `next` is what `nextChunkId` would give.
unfoldable pub next_flush : ℕ → StreamImpl → StreamImpl
next_flush next s = if s.on_wire then s else elim s.flushes [
  | zero ↦ s
  | suc n ↦
      let id = id_or s.chunk_id next in
      if is_empty s.buffer then record s { flushes = n } else record s {
        flushes = n;
        buffer = [];
        chunk_id = some id;
        on_wire = true;
        sent = s.sent ++ chunk id s.buffer ∷ [];
      }
]

-- The send of a chunk is over.
unfoldable pub chunk_sent : StreamImpl → StreamImpl
chunk_sent s = record s { on_wire = false }

-- end
unfoldable pub end : StreamImpl → StreamImpl
end s = if is_open s.ending then flush (record s { timer = false; ending = waiting }) else s

-- #end, once the chain is done.
unfoldable pub flushed : StreamImpl → StreamImpl
flushed s =
    let told = record s { ending = ended; sent = s.sent ++ message s.written ∷ [] } in
    elim s.ending [
      | unended ↦ s
      | ended ↦ s
      | waiting ↦
          if s.on_wire || not (s.flushes == 0)
          then s
          else if has_message s.mode && not (is_empty s.written)
          then told
          else record s { ending = ended }
    ]

-- What happens to a stream; a write that throws changes nothing.
pub data Step : Type 0 where
  wrote : Text → Step
  timed sent_chunk ending_called chain_done : Step
  flushing_with : ℕ → Step

abbrev pub or_same : StreamImpl → Option StreamImpl → StreamImpl
or_same s none = s
or_same s (some t) = t

unfoldable pub step : Step → StreamImpl → StreamImpl
step (wrote delta) s = or_same s (write delta s)
step timed s = timer_fired s
step (flushing_with next) s = next_flush next s
step sent_chunk s = chunk_sent s
step ending_called s = end s
step chain_done s = flushed s

unfoldable pub steps : List Step → StreamImpl → StreamImpl
steps [] s = s
steps (e ∷ es) s = steps es (step e s)
