-- ===== src/Client/Transport/Sse/Payload.antt =====
-- sse.ts: what #event reads in the events that `event_stream_controller.ex` writes, from an event's text
-- to the text given to `JSON.parse`.
use converger.Prelude.{
  ℕ, ◌≡◌, ◌≢◌, refl, Option, none, some, List, [], ◌∷◌, ◌++◌, map, All, arith, append_assoc,
  append-nil, ◌∙◌, nat_eq, ap,
}
use converger.Client.Transport.Sse.Stream.{
  Text, newline_at, boundary_at, with_head, split_boundary, feed, feed_all, split_lines, data_of,
  drop_space, data_lines, push_char, join_lines, payload,
}
use converger.Client.Transport.Sse.Chunks.{
  split_boundary-here, split_boundary-later, concat, feed_all-concat, split_boundary-nil, feed-nil,
  feed-some,
}

-- A text without line ends, as a JSON text is.
abbrev pub IsLine : Text → Type 0
IsLine s = All (λ (c : ℕ). (c ≢ 10) × (c ≢ 13)) s

-- What the server writes: the `retry` of a new stream, and a frame with its id, where it has a seq, and its type.
pub data ServerEvent : Type 0 where
  retry : ServerEvent
  frame : Option Text → Text → Text → ServerEvent

-- The lines of `event(frame)`.
abbrev pub event_lines : ServerEvent → List Text
event_lines retry = (114 ∷ 101 ∷ 116 ∷ 114 ∷ 121 ∷ 58 ∷ 32 ∷ 51 ∷ 48 ∷ 48 ∷ 48 ∷ []) ∷ []
event_lines (frame none kind json) =
    (101 ∷ 118 ∷ 101 ∷ 110 ∷ 116 ∷ 58 ∷ 32 ∷ kind) ∷ (100 ∷ 97 ∷ 116 ∷ 97 ∷ 58 ∷ 32 ∷ json) ∷ []
event_lines (frame (some id) kind json) =
    (105 ∷ 100 ∷ 58 ∷ 32 ∷ id)
    ∷ (101 ∷ 118 ∷ 101 ∷ 110 ∷ 116 ∷ 58 ∷ 32 ∷ kind)
    ∷ (100 ∷ 97 ∷ 116 ∷ 97 ∷ 58 ∷ 32 ∷ json)
    ∷ []

abbrev pub stream_text : List ServerEvent → Text
stream_text [] = []
stream_text (event ∷ events) = join_lines (event_lines event) ++ (10 ∷ 10 ∷ stream_text events)

-- The frame of an event, as the text of its JSON.
abbrev pub frame_of : ServerEvent → Option Text
frame_of retry = none
frame_of (frame id kind json) = some json

abbrev pub IsEvent : ServerEvent → Type 0
IsEvent retry = Unit
IsEvent (frame none kind json) = IsLine kind × IsLine json
IsEvent (frame (some id) kind json) = IsLine id × (IsLine kind × IsLine json)

-- The lines of an event have no line ends and are not empty.
abbrev IsFilled : Text → Type 0
IsFilled [] = ⊥
IsFilled (c ∷ s) = IsLine (c ∷ s)

abbrev IsLines : List Text → Type 0
IsLines [] = ⊥
IsLines (l ∷ []) = IsFilled l
IsLines (l ∷ m ∷ ls) = IsFilled l × IsLines (m ∷ ls)

IsFilled→IsLine : (s : Text) → IsFilled s → IsLine s
IsFilled→IsLine [] h = elim h [ ]
IsFilled→IsLine (c ∷ s) h = h

no_boundary-line : (c x : ℕ) (s r : Text) → IsLine (c ∷ s) → boundary_at ((c ∷ s) ++ (x ∷ r)) ≡ none
unfolding boundary_at newline_at
no_boundary-line c x [] r h = ground arith
no_boundary-line c x (d ∷ s) r h = ground arith

no_boundary-filled : (c : ℕ) (s : Text) → c ≢ 10 → c ≢ 13 → boundary_at (10 ∷ c ∷ s) ≡ none
unfolding boundary_at newline_at
no_boundary-filled c [] h k = ground arith
no_boundary-filled c (d ∷ s) h k = ground arith

boundary-blank : (r : Text) → boundary_at (10 ∷ 10 ∷ r) ≡ some r
unfolding boundary_at newline_at
boundary-blank [] = refl
boundary-blank (c ∷ r) = refl

-- No boundary starts in a line.
split_boundary-line :
    (s a r q : Text) (x : ℕ)
    → IsLine s
    → split_boundary (x ∷ q) ≡ some (a, r)
    → split_boundary (s ++ (x ∷ q)) ≡ some (s ++ a, r)
split_boundary-line [] a r q x h k = k
split_boundary-line (c ∷ s) a r q x h k = ground (
  arith,
  split_boundary-later c (s ++ (x ∷ q)),
  no_boundary-line c x s q h,
  split_boundary-line s a r q x h.1 k,
)

-- No boundary starts at the end of a line before another.
no_boundary-lines :
    (m : Text) (ls : List Text) (r : Text)
    → IsLines (m ∷ ls)
    → boundary_at (10 ∷ (join_lines (m ∷ ls) ++ r)) ≡ none
unfolding join_lines
no_boundary-lines [] [] r h = elim h [ ]
no_boundary-lines [] (n ∷ ls) r h = elim h.0 [ ]
no_boundary-lines (c ∷ m) [] r h = no_boundary-filled c (m ++ r) h.0.0 h.0.1
no_boundary-lines (c ∷ m) (n ∷ ls) r h =
    no_boundary-filled c ((m ++ (10 ∷ join_lines (n ∷ ls))) ++ r) h.0.0.0 h.0.0.1

-- An event is cut off at its blank line.
split_boundary-lines :
    (ls : List Text) (r : Text)
    → IsLines ls
    → split_boundary (join_lines ls ++ (10 ∷ 10 ∷ r)) ≡ some (join_lines ls, r)
unfolding join_lines
split_boundary-lines [] r h = elim h [ ]
split_boundary-lines (l ∷ []) r h =
    let e : split_boundary (10 ∷ 10 ∷ r) ≡ some ([], r) =
      split_boundary-here 10 (10 ∷ r) r (boundary-blank r) in
    ground (arith, split_boundary-line l [] r (10 ∷ r) 10 (IsFilled→IsLine l h) e, append-nil l)
split_boundary-lines (l ∷ m ∷ ls) r h =
    let rest : Text = join_lines (m ∷ ls) ++ (10 ∷ 10 ∷ r) in
    rw (append_assoc l (10 ∷ join_lines (m ∷ ls)) (10 ∷ 10 ∷ r)) (
      split_boundary-line l (10 ∷ join_lines (m ∷ ls)) r rest 10 (IsFilled→IsLine l h.0) (
        split_boundary-later 10 rest (no_boundary-lines m ls (10 ∷ 10 ∷ r) h.1)
        ∙ ap (with_head 10) (split_boundary-lines (m ∷ ls) r h.1)))

split_lines-char :
    (c d : ℕ) (s : Text)
    → c ≢ 10
    → c ≢ 13
    → split_lines (c ∷ d ∷ s) ≡ push_char c (split_lines (d ∷ s))
unfolding split_lines
split_lines-char c d s h k = ground arith

split_lines-end : (r : Text) → split_lines (10 ∷ r) ≡ [] ∷ split_lines r
unfolding split_lines
split_lines-end [] = refl
split_lines-end (c ∷ r) = refl

split_lines-line : (s r : Text) → IsLine s → split_lines (s ++ (10 ∷ r)) ≡ s ∷ split_lines r
split_lines-line [] r h = split_lines-end r
split_lines-line (c ∷ []) r h =
    split_lines-char c 10 r h.0.0 h.0.1 ∙ ap (push_char c) (split_lines-end r)
split_lines-line (c ∷ d ∷ s) r h =
    split_lines-char c d (s ++ (10 ∷ r)) h.0.0 h.0.1
    ∙ ap (push_char c) (split_lines-line (d ∷ s) r h.1)

split_lines-last : (s : Text) → IsFilled s → split_lines s ≡ s ∷ []
unfolding split_lines
split_lines-last [] h = elim h [ ]
split_lines-last (c ∷ []) h = ground arith
split_lines-last (c ∷ d ∷ s) h = ground (arith, split_lines-last (d ∷ s) h.1)

-- Splitting takes back what joining did.
split_lines-join_lines : (ls : List Text) → IsLines ls → split_lines (join_lines ls) ≡ ls
unfolding join_lines
split_lines-join_lines [] h = elim h [ ]
split_lines-join_lines (l ∷ []) h = split_lines-last l h
split_lines-join_lines (l ∷ m ∷ ls) h =
    split_lines-line l (join_lines (m ∷ ls)) (IsFilled→IsLine l h.0)
    ∙ ap (λ (t : List Text). l ∷ t) (split_lines-join_lines (m ∷ ls) h.1)

event_lines-IsLines : (event : ServerEvent) → IsEvent event → IsLines (event_lines event)
event_lines-IsLines retry h = ground arith
event_lines-IsLines (frame none kind json) h = ground arith
event_lines-IsLines (frame (some id) kind json) h = ground arith

data_lines-retry : data_lines (event_lines retry) ≡ []
unfolding data_lines data_of drop_space
data_lines-retry = refl

data_lines-frame :
    (id : Option Text) (kind json : Text)
    → data_lines (event_lines (frame id kind json)) ≡ json ∷ []
unfolding data_lines data_of drop_space
data_lines-frame none kind json = refl
data_lines-frame (some []) kind json = refl
data_lines-frame (some (c ∷ id)) kind json = refl

payload-none : (chunk : Text) → data_lines (split_lines chunk) ≡ [] → payload chunk ≡ none
unfolding payload
payload-none chunk h = ground arith

payload-some : (chunk l : Text) → data_lines (split_lines chunk) ≡ l ∷ [] → payload chunk ≡ some l
unfolding payload join_lines
payload-some chunk l h = ground arith

payload-event :
    (event : ServerEvent)
    → IsEvent event
    → payload (join_lines (event_lines event)) ≡ frame_of event
payload-event retry h =
    payload-none (join_lines (event_lines retry)) (
      rw (split_lines-join_lines (event_lines retry) (event_lines-IsLines retry h))
        data_lines-retry)
payload-event (frame id kind json) h =
    payload-some (join_lines (event_lines (frame id kind json))) json (
      rw
        (split_lines-join_lines (event_lines (frame id kind json))
          (event_lines-IsLines (frame id kind json) h))
        (data_lines-frame id kind json))

feed-stream_text :
    (events : List ServerEvent)
    → All IsEvent events
    → feed [] (stream_text events)
      ≡ (map (λ (e : ServerEvent). join_lines (event_lines e)) events, [])
feed-stream_text [] h = feed-nil [] split_boundary-nil
feed-stream_text (e ∷ events) h = ground (
  arith,
  feed-stream_text events h.1,
  split_boundary-lines (event_lines e) (stream_text events) (event_lines-IsLines e h.0),
  feed-some (stream_text (e ∷ events)) (join_lines (event_lines e)) (stream_text events),
)

payloads-events :
    (events : List ServerEvent)
    → All IsEvent events
    → map payload (map (λ (e : ServerEvent). join_lines (event_lines e)) events)
      ≡ map frame_of events
payloads-events [] h = refl
payloads-events (e ∷ events) h = ground (arith, payload-event e h.0, payloads-events events h.1)

-- Where no line of an event has a line end, a client that reads a stream of events, cut into reads in any way,
-- finds the frame of each event, in order, none in a `retry`, and is left with an empty buffer.
pub feed_all-stream_text :
    (events : List ServerEvent) (values : List Text)
    → All IsEvent events
    → concat values ≡ stream_text events
    → (map payload (feed_all [] values).0 ≡ map frame_of events) × ((feed_all [] values).1 ≡ [])
feed_all-stream_text events values h e =
    rw (feed_all-concat [] values split_boundary-nil, e, feed-stream_text events h)
      (payloads-events events h, refl)
