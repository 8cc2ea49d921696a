-- ===== src/Agent/Reply/Stream/Complete.antt =====
-- reply.ts: what a stream sends of the text written to it.
use converger.Prelude.{
  ℕ, ◌≡◌, refl, ◌∙◌, sym, ap, Bool, true, false, not, ◌&&◌, ◌||◌, List, [], ◌∷◌, ◌++◌, arith,
  if◌then◌else◌, append-nil, append_assoc, nat_eq, ◌==◌,
}
use converger.Agent.Reply.Stream.{
  Text, StreamMode, genui, text, genui_text, Ending, unended, waiting, ended, Sent, chunk, message,
  StreamImpl, new_stream, is_open, has_chunks, has_message, is_empty, write, flush, timer_fired,
  id_or, next_flush, chunk_sent, end, flushed, Step, wrote, timed, flushing_with, sent_chunk,
  ending_called, chain_done, or_same, step, steps,
}

-- The text of the chunks, joined, and the messages.
abbrev pub contents : List Sent → Text
contents [] = []
contents (chunk id s ∷ os) = s ++ contents os
contents (message s ∷ os) = contents os

abbrev pub messages : List Sent → List Text
messages [] = []
messages (chunk id s ∷ os) = messages os
messages (message s ∷ os) = s ∷ messages os

contents-append : (os rs : List Sent) → contents (os ++ rs) ≡ contents os ++ contents rs
contents-append [] rs = refl
contents-append (chunk id s ∷ os) rs =
    ap (λ (l : Text). s ++ l) (contents-append os rs)
    ∙ sym (append_assoc s (contents os) (contents rs))
contents-append (message s ∷ os) rs = contents-append os rs

messages-append : (os rs : List Sent) → messages (os ++ rs) ≡ messages os ++ messages rs
messages-append [] rs = refl
messages-append (chunk id s ∷ os) rs = messages-append os rs
messages-append (message s ∷ os) rs = ap (λ (l : List Text). s ∷ l) (messages-append os rs)

-- The messages that are due once a stream is over.
abbrev pub final_messages : StreamMode → Text → List Text
final_messages mode written =
    if has_message mode && not (is_empty written) then written ∷ [] else []

abbrev is_over : Ending → Bool
is_over unended = false
is_over waiting = false
is_over ended = true

-- Everything written is sent or in the buffer, a buffer that is not empty has a timer or a flush to come, and the
-- messages are those that are due.
record Invariant (s : StreamImpl) : Type 0 where
  whole : contents s.sent ++ s.buffer ≡ (if has_chunks s.mode then s.written else [])
  due : (is_empty s.buffer || (s.timer || not (s.flushes == 0))) ≡ true
  quiet : (is_open s.ending || not s.timer) ≡ true
  done : (is_over s.ending && not (s.flushes == 0)) ≡ false
  told : messages s.sent ≡ (if is_over s.ending then final_messages s.mode s.written else [])

empty : (s : Text) → is_empty s ≡ true → s ≡ []
empty [] h = refl
empty (c ∷ s) h = ground arith

write-Invariant :
    (delta : Text) (s : StreamImpl) → Invariant s → Invariant (or_same s (write delta s))
unfolding write
write-Invariant delta s i =
    ground (
      arith,
      i.whole,
      i.due,
      i.quiet,
      i.done,
      i.told,
      append_assoc (contents s.sent) s.buffer delta,
    )

flush-Invariant : (s : StreamImpl) → is_over s.ending ≡ false → Invariant s → Invariant (flush s)
unfolding flush
flush-Invariant s o i = ground (arith, i.whole, i.due, i.quiet, i.done, i.told)

timer_fired-Invariant : (s : StreamImpl) → Invariant s → Invariant (timer_fired s)
unfolding timer_fired flush
timer_fired-Invariant s i = ground (arith, i.whole, i.due, i.quiet, i.done, i.told)

next_flush-Invariant : (next : ℕ) (s : StreamImpl) → Invariant s → Invariant (next_flush next s)
unfolding next_flush
next_flush-Invariant next s i = ground (
  arith,
  i.whole,
  i.due,
  i.quiet,
  i.done,
  i.told,
  contents-append s.sent (chunk (id_or s.chunk_id next) s.buffer ∷ []),
  messages-append s.sent (chunk (id_or s.chunk_id next) s.buffer ∷ []),
  append-nil s.buffer,
  append-nil (messages s.sent),
  append-nil (contents s.sent ++ s.buffer),
)

end-Invariant : (s : StreamImpl) → Invariant s → Invariant (end s)
unfolding end flush
end-Invariant s i = ground (arith, i.whole, i.due, i.quiet, i.done, i.told)

flushed-Invariant : (s : StreamImpl) → Invariant s → Invariant (flushed s)
unfolding flushed
flushed-Invariant s i = ground (
  arith,
  i.whole,
  i.due,
  i.quiet,
  i.done,
  i.told,
  contents-append s.sent (message s.written ∷ []),
  messages-append s.sent (message s.written ∷ []),
  append-nil (contents s.sent),
)

step-Invariant : (e : Step) (s : StreamImpl) → Invariant s → Invariant (step e s)
unfolding step chunk_sent
step-Invariant (wrote delta) s i = write-Invariant delta s i
step-Invariant timed s i = timer_fired-Invariant s i
step-Invariant (flushing_with next) s i = next_flush-Invariant next s i
step-Invariant sent_chunk s i = record {
  whole = i.whole;
  due = i.due;
  quiet = i.quiet;
  done = i.done;
  told = i.told;
}
step-Invariant ending_called s i = end-Invariant s i
step-Invariant chain_done s i = flushed-Invariant s i

steps-Invariant : (es : List Step) (s : StreamImpl) → Invariant s → Invariant (steps es s)
unfolding steps
steps-Invariant [] s i = i
steps-Invariant (e ∷ es) s i = steps-Invariant es (step e s) (step-Invariant e s i)

new_stream-Invariant : (mode : StreamMode) → Invariant (new_stream mode)
new_stream-Invariant genui = record {
  whole = refl;
  due = refl;
  quiet = refl;
  done = refl;
  told = refl;
}
new_stream-Invariant text = record {
  whole = refl;
  due = refl;
  quiet = refl;
  done = refl;
  told = refl;
}
new_stream-Invariant genui_text = record {
  whole = refl;
  due = refl;
  quiet = refl;
  done = refl;
  told = refl;
}

complete :
    (s : StreamImpl)
    → Invariant s
    → s.ending ≡ ended
    → (contents s.sent ≡ (if has_chunks s.mode then s.written else []))
      × (messages s.sent ≡ final_messages s.mode s.written)
complete s i e =
    ground
      (arith, i.whole, i.due, i.quiet, i.done, i.told, empty s.buffer, append-nil (contents s.sent))

-- The text of the writes before the first call of `end`.
abbrev pub text_before_end : List Step → Text
text_before_end [] = []
text_before_end (wrote delta ∷ es) = delta ++ text_before_end es
text_before_end (ending_called ∷ es) = []
text_before_end (timed ∷ es) = text_before_end es
text_before_end (flushing_with next ∷ es) = text_before_end es
text_before_end (sent_chunk ∷ es) = text_before_end es
text_before_end (chain_done ∷ es) = text_before_end es

-- What one step does to the mode, the text and the openness.
abbrev SameText : StreamImpl → StreamImpl → Type 0
SameText s t = (t.mode ≡ s.mode) × (t.written ≡ s.written) × (is_open t.ending ≡ is_open s.ending)

timer_fired-SameText : (s : StreamImpl) → SameText s (timer_fired s)
unfolding timer_fired flush
timer_fired-SameText s = ground arith

next_flush-SameText : (next : ℕ) (s : StreamImpl) → SameText s (next_flush next s)
unfolding next_flush
next_flush-SameText next s = ground arith

flushed-SameText : (s : StreamImpl) → SameText s (flushed s)
unfolding flushed
flushed-SameText s = ground arith

write_text :
    (delta : Text) (s : StreamImpl)
    → ((or_same s (write delta s)).mode ≡ s.mode)
      × ((or_same s (write delta s)).written
          ≡ (if is_open s.ending then s.written ++ delta else s.written))
      × ((or_same s (write delta s)).ending ≡ s.ending)
unfolding write
write_text [] s = ground (arith, append-nil s.written)
write_text (c ∷ delta) s = ground arith

end_text :
    (s : StreamImpl)
    → ((end s).mode ≡ s.mode) × ((end s).written ≡ s.written) × (is_open (end s).ending ≡ false)
unfolding end flush
end_text s = ground arith

-- The text and the mode of a stream after any steps.
steps_text :
    (es : List Step) (s : StreamImpl)
    → ((steps es s).mode ≡ s.mode)
      × ((steps es s).written
          ≡ (if is_open s.ending then s.written ++ text_before_end es else s.written))
unfolding steps step chunk_sent
steps_text [] s = ground (arith, append-nil s.written)
steps_text (wrote delta ∷ es) s = ground (
  arith,
  write_text delta s,
  steps_text es (or_same s (write delta s)),
  append_assoc s.written delta (text_before_end es),
)
steps_text (timed ∷ es) s = ground (arith, timer_fired-SameText s, steps_text es (timer_fired s))
steps_text (flushing_with next ∷ es) s =
    ground (arith, next_flush-SameText next s, steps_text es (next_flush next s))
steps_text (sent_chunk ∷ es) s = steps_text es (record s { on_wire = false })
steps_text (ending_called ∷ es) s =
    ground (arith, end_text s, steps_text es (end s), append-nil s.written)
steps_text (chain_done ∷ es) s = ground (arith, flushed-SameText s, steps_text es (flushed s))

-- Whatever is written, flushed and sent, and in any order: once a stream is over, its chunks joined are the text of the
-- writes before the first call of `end`, where its mode sends chunks, and it sent that text as one message, where its
-- mode sends one and the text is not empty; otherwise it sent neither.
pub stream_complete :
    (mode : StreamMode) (es : List Step)
    → (steps es (new_stream mode)).ending ≡ ended
    → (contents (steps es (new_stream mode)).sent
        ≡ (if has_chunks mode then text_before_end es else []))
      × (messages (steps es (new_stream mode)).sent ≡ final_messages mode (text_before_end es))
stream_complete mode es e =
    let s = steps es (new_stream mode) in
    ground (
      arith,
      complete s (steps-Invariant es (new_stream mode) (new_stream-Invariant mode)) e,
      steps_text es (new_stream mode),
    )
