-- ===== src/Client/Conversation/OnceOnWire.antt =====
-- conversation.ts: the entries that `#flush` puts on the wire.
use converger.Prelude.{
  ◌≡◌, refl, sym, ap, ◌∙◌, true, false, ◌⊎◌, String, List, [], ◌∷◌, ◌++◌, append-nil, append_assoc,
  same_refl, string_eq, if◌then◌else◌, arith, All, Bool-cases, inl, inr,
}
use converger.Js.Set
use converger.Client.Frames.{ClientFrame, text}
use converger.Client.Outbox.Entries.{OutboxEntry, ids, AllDistinct}
use converger.Client.Conversation.State.{Sending, Env, Conversation}
use converger.Client.Conversation.Outbound.{flush_one, flush_loop, flush, can_flush}

-- The frames of entries.
abbrev pub frames : List OutboxEntry → List ClientFrame
frames [] = []
frames (e ∷ es) = text e.frame ∷ frames es

-- A round that puts nothing on the wire.
record Kept (s t : Sending) : Type 0 where
  same_wire : t.wire ≡ s.wire
  same_flight : t.in_flight ≡ s.in_flight

-- A round that puts an entry on the wire.
record Put (e : OutboxEntry) (s t : Sending) : Type 0 where
  was_idle : Set.has e.client_id s.in_flight ≡ false
  longer_wire : t.wire ≡ s.wire ++ (text e.frame ∷ [])
  longer_flight : t.in_flight ≡ Set.add e.client_id s.in_flight

flush_one_cases :
    (env : Env) (e : OutboxEntry) (s : Sending)
    → Kept s (flush_one env e s).0 ⊎ Put e s (flush_one env e s).0
unfolding flush_one
flush_one_cases env e s = grind arith

-- Some of the entries of a list, in its order.
pub data Subsequence : List OutboxEntry → List OutboxEntry → Type 0 where
  done : Subsequence [] []
  kept :
      (e : OutboxEntry) {es fs : List OutboxEntry}
      → Subsequence es fs
      → Subsequence (e ∷ es) (e ∷ fs)
  left : (e : OutboxEntry) {es fs : List OutboxEntry} → Subsequence es fs → Subsequence es (e ∷ fs)

none_of : (fs : List OutboxEntry) → Subsequence [] fs
none_of [] = done
none_of (e ∷ fs) = left e (none_of fs)

abbrev AllIdle : Set.Set String → List OutboxEntry → Type 0
AllIdle flight = All (λ x. Set.has x.client_id flight ≡ false)

-- What the rounds over a list of entries did: which of them went on the wire.
pub record Flushed (es : List OutboxEntry) (s t : Sending) : Type 0 where
  pub new : List OutboxEntry
  pub chosen : Subsequence new es
  pub wire : t.wire ≡ s.wire ++ frames new
  pub idle : All (λ x. Set.has x.client_id s.in_flight ≡ false) new
  pub distinct : AllDistinct (ids new)
  pub flight :
      (id : String)
      → Set.has id t.in_flight ≡ (if Set.has id (ids new) then true else Set.has id s.in_flight)

not_in_new :
    (id : String) (flight : Set.Set String) (new : List OutboxEntry)
    → Set.has id flight ≡ true
    → AllIdle flight new
    → Set.has id (ids new) ≡ false
unfolding Set.has
not_in_new id flight [] h a = refl
not_in_new id flight (x ∷ new) h a =
    ground (arith, a.0, not_in_new id flight new h a.1, string_eq.same_iff x.client_id id)

idle_before :
    (id : String) (flight : Set.Set String) (new : List OutboxEntry)
    → AllIdle (Set.add id flight) new
    → AllIdle flight new
idle_before id flight [] a = a
idle_before id flight (x ∷ new) a =
    (ground (arith, a.0, Set.has-add id x.client_id flight), idle_before id flight new a.1)

Flushed-refl : (es : List OutboxEntry) (s : Sending) → Flushed es s s
unfolding Set.has
Flushed-refl es s = record {
  new = [];
  chosen = none_of es;
  wire = sym (append-nil s.wire);
  idle = tt;
  distinct = tt;
  flight = λ id. refl;
}

Flushed-Kept :
    {es : List OutboxEntry} {s t u : Sending} (e : OutboxEntry)
    → Kept s t
    → Flushed es t u
    → Flushed (e ∷ es) s u
Flushed-Kept {es} {s} {t} e k f = record {
  new = f.new;
  chosen = left e f.chosen;
  wire = f.wire ∙ ap (λ (w : List ClientFrame). w ++ frames f.new) k.same_wire;
  idle = rw (← k.same_flight) f.idle;
  distinct = f.distinct;
  flight = λ id. ground (arith, f.flight id, k.same_flight);
}

Flushed-Put :
    {es : List OutboxEntry} {s t u : Sending} (e : OutboxEntry)
    → Put e s t
    → Flushed es t u
    → Flushed (e ∷ es) s u
unfolding Set.has
Flushed-Put {es} {s} {t} e k f =
    let idle : AllIdle (Set.add e.client_id s.in_flight) f.new = rw (← k.longer_flight) f.idle in
    record {
      new = e ∷ f.new;
      chosen = kept e f.chosen;
      wire =
          f.wire
          ∙ ap (λ (w : List ClientFrame). w ++ frames f.new) k.longer_wire
          ∙ append_assoc s.wire (text e.frame ∷ []) (frames f.new);
      idle = (k.was_idle, idle_before e.client_id s.in_flight f.new idle);
      distinct = (
        not_in_new e.client_id (Set.add e.client_id s.in_flight) f.new
            (ground (arith, Set.has-add e.client_id e.client_id s.in_flight, same_refl e.client_id))
            idle,
        f.distinct,
      );
      flight = λ id.
          ground (arith, f.flight id, k.longer_flight, Set.has-add e.client_id id s.in_flight);
    }

flush_loop-Flushed :
    (env : Env) (es : List OutboxEntry) (s : Sending) → Flushed es s (flush_loop env es s)
unfolding flush_loop
flush_loop-Flushed env [] s = Flushed-refl [] s
flush_loop-Flushed env (e ∷ es) s = elim (Bool-cases (flush_one env e s).1) [
  | inl h ↦ rw h (after (flush_loop-Flushed env es (flush_one env e s).0))
  | inr h ↦ rw h (after (Flushed-refl es (flush_one env e s).0))
]
  where
    after : {u : Sending} → Flushed es (flush_one env e s).0 u → Flushed (e ∷ es) s u
    after f = elim (flush_one_cases env e s) [
      | inl k ↦ Flushed-Kept e k f
      | inr k ↦ Flushed-Put e k f
    ]

flush-Flushed :
    (env : Env) (c : Conversation) → Flushed c.sending.store.entries c.sending (flush env c).sending
unfolding flush
flush-Flushed env c = elim (Bool-cases (can_flush c)) [
  | inl h ↦ rw (h, flush) (flush_loop-Flushed env c.sending.store.entries c.sending)
  | inr h ↦ rw (h, flush) (Flushed-refl c.sending.store.entries c.sending)
]

-- What a flush adds to the wire are the frames of some entries of the outbox, in its order, each with its own frame, of
-- which none was in flight before and no two have the same clientId; and in flight afterwards are exactly these and
-- those that were before.
pub flush_once :
    (env : Env) (c : Conversation)
    → (new : List OutboxEntry) × Subsequence new c.sending.store.entries
      × ((flush env c).sending.wire ≡ c.sending.wire ++ frames new)
      × All (λ e. Set.has e.client_id c.sending.in_flight ≡ false) new
      × AllDistinct (ids new)
      × ((id : String)
          → Set.has id (flush env c).sending.in_flight
            ≡ (if Set.has id (ids new) then true else Set.has id c.sending.in_flight))
flush_once env c =
    let f = flush-Flushed env c in (f.new, f.chosen, f.wire, f.idle, f.distinct, f.flight)
