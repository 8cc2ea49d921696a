-- ===== src/Client/Transport/Sse/Recent.antt =====
-- sse.ts: what a transport remembers and awaits of an id among the frames of others.
use converger.Prelude.{
  ℕ, ◌+◌, ◌≤◌, ◌<◌, ◌≡◌, refl, ◌∙◌, false, none, some, String, List, [], ◌∷◌, All, arith, string_eq,
  ◌==◌, if◌then◌else◌, length, Option-cases, inl, inr, same_refl,
}
use converger.Js.Map
use converger.Js.Map.{Map, map_laws}
use converger.Client.Frames.{ServerFrame, ErrorFrame, ActivityFrame, OtherFrame, is_persistent}
use converger.Client.Transport.Sse.Session.{
  SseTransport, on_frame, emit, evict, remember, settle, persistent, close_on, finish, or_option,
  receive,
}

-- The number of entries after that of a key.
unfoldable pub after : String → Map String ℕ → ℕ
after id [] = 0
after id ((j, v) ∷ m) = if j == id then length m else after id m

after-cons :
    (id j : String) (v : ℕ) (m : Map String ℕ)
    → after id ((j, v) ∷ m) ≡ (if j == id then length m else after id m)
unfolding after
after-cons id j v m = refl

pub after-new :
    (id : String) (v : ℕ) (m : Map String ℕ) → Map.get id m ≡ none → after id (Map.set id v m) ≡ 0
unfolding after Map.set Map.get
after-new id v [] h = ground (arith, same_refl id)
after-new id v ((j, w) ∷ m) h = ground (arith, after-new id v m)

-- Another key is put behind.
after-set :
    (id k : String) (v : ℕ) (m : Map String ℕ)
    → (k == id) ≡ false
    → after id (Map.set k v m) ≤ after id m + 1
unfolding after Map.set
after-set id k v [] h = ground arith
after-set id k v ((j, w) ∷ m) h = ground (
  arith,
  after-set id k v m h,
  Map.length-set k v m,
  string_eq.same_iff j k,
  string_eq.same_iff j id,
  string_eq.same_iff k id,
)

after-delete :
    (id k : String) (m : Map String ℕ) → (k == id) ≡ false → after id (Map.delete k m) ≤ after id m
unfolding after Map.delete
after-delete id k [] h = ground arith
after-delete id k ((j, w) ∷ m) h = ground (
  arith,
  after-delete id k m h,
  Map.length-delete k m,
  string_eq.same_iff j k,
  string_eq.same_iff j id,
  string_eq.same_iff k id,
)

-- A key with fewer than 500 entries after it outlives the eviction.
pub evict-kept :
    (id : String) (seq : ℕ) (m : Map String ℕ)
    → Map.get id m ≡ some seq
    → after id m < 500
    → (Map.get id (evict m) ≡ some seq) × (after id (evict m) ≤ after id m)
unfolding evict
evict-kept id seq [] h k = (h, omega arith)
evict-kept id seq ((j, w) ∷ m) h k =
    ground
      (arith, after-cons id j w m, after-delete id j ((j, w) ∷ m), Map.get-delete j id ((j, w) ∷ m))

-- Frames that are not the frame of `id`.
abbrev pub IsApart : String → ServerFrame → Type 0
IsApart id (ServerFrame.other f) = elim (is_persistent f) [
  | none ↦ Unit
  | some a ↦ elim a.id [ none ↦ Unit | some k ↦ (k == id) ≡ false ]
]
IsApart id frame = Unit

unfoldable pub receive_all : List ServerFrame → SseTransport → SseTransport
receive_all [] t = t
receive_all (f ∷ fs) t = receive_all fs (receive f t)

settle-apart :
    (id k : String) (seq : ℕ) (t : SseTransport)
    → (k == id) ≡ false
    → ((settle k seq t).recent ≡ t.recent)
      × (Map.get id (settle k seq t).awaiting ≡ Map.get id t.awaiting)
unfolding settle emit
settle-apart id k seq t h = ground (arith, Map.get-delete k id t.awaiting)

set-kept :
    (id k : String) (v seq : ℕ) (m : Map String ℕ)
    → (k == id) ≡ false
    → Map.get id m ≡ some seq
    → after id m < 499
    → (Map.get id (evict (Map.set k v m)) ≡ some seq)
      × (after id (evict (Map.set k v m)) ≤ after id m + 1)
set-kept id k v seq m h g l =
    ground (arith, Map.get-set k id v m, after-set id k v m h, evict-kept id seq (Map.set k v m))

finish-maps :
    (code : ℕ) (reason : String) (t : SseTransport)
    → ((finish code reason t).recent ≡ t.recent) × ((finish code reason t).awaiting ≡ t.awaiting)
unfolding finish emit
finish-maps code reason t = ground arith

close_on-maps :
    (code : String) (t : SseTransport)
    → ((close_on code t).recent ≡ t.recent) × ((close_on code t).awaiting ≡ t.awaiting)
unfolding close_on
close_on-maps code t =
    ground (arith, finish-maps 4401 code t, finish-maps 4403 code t, finish-maps 1012 code t)

persistent-apart :
    (id k : String) (a : ActivityFrame) (t : SseTransport)
    → a.id ≡ some k
    → (k == id) ≡ false
    → ((persistent a t).recent ≡ evict (Map.set k a.seq t.recent))
      × (Map.get id (persistent a t).awaiting ≡ Map.get id t.awaiting)
unfolding persistent remember
persistent-apart id k a t e h = ground (arith, settle-apart id k a.seq (remember k a.seq t) h)

persistent-unnamed : (a : ActivityFrame) (t : SseTransport) → a.id ≡ none → persistent a t ≡ t
unfolding persistent
persistent-unnamed a t e = ground arith

-- The maps after a frame.
pub receive-maps :
    (f : OtherFrame) (a : ActivityFrame) (t : SseTransport)
    → is_persistent f ≡ some a
    → ((receive (ServerFrame.other f) t).recent ≡ (persistent a t).recent)
      × ((receive (ServerFrame.other f) t).awaiting ≡ (persistent a t).awaiting)
unfolding receive emit
receive-maps f a t e = ground arith

receive-control :
    (f : OtherFrame) (t : SseTransport)
    → is_persistent f ≡ none
    → ((receive (ServerFrame.other f) t).recent ≡ t.recent)
      × ((receive (ServerFrame.other f) t).awaiting ≡ t.awaiting)
unfolding receive emit
receive-control f t e = ground arith

-- What is kept of an id that is remembered or awaited.
abbrev IsKept : String → SseTransport → SseTransport → Type 0
IsKept id s t =
    ((seq : ℕ)
      → Map.get id s.recent ≡ some seq
      → after id s.recent < 499
      → (Map.get id t.recent ≡ some seq) × (after id t.recent ≤ after id s.recent + 1))
    × (Map.get id t.awaiting ≡ Map.get id s.awaiting)

same-IsKept :
    (id : String) (s t : SseTransport)
    → t.recent ≡ s.recent
    → t.awaiting ≡ s.awaiting
    → IsKept id s t
same-IsKept id s t p q = (λ seq g l. ground arith, ground arith)

receive-error :
    (e : ErrorFrame) (t : SseTransport)
    → ((receive (ServerFrame.error e) t).recent ≡ t.recent)
      × ((receive (ServerFrame.error e) t).awaiting ≡ t.awaiting)
unfolding receive emit
receive-error e t =
    let told =
      emit (on_frame (ServerFrame.error e))
        (record t { retry_after_ms = or_option e.retry_after_ms t.retry_after_ms }) in
    close_on-maps e.code told

receive-unnamed :
    (f : OtherFrame) (a : ActivityFrame) (t : SseTransport)
    → is_persistent f ≡ some a
    → a.id ≡ none
    → ((receive (ServerFrame.other f) t).recent ≡ t.recent)
      × ((receive (ServerFrame.other f) t).awaiting ≡ t.awaiting)
receive-unnamed f a t e n = ground (arith, receive-maps f a t e, persistent-unnamed a t n)

receive-named :
    (id k : String) (f : OtherFrame) (a : ActivityFrame) (t : SseTransport)
    → is_persistent f ≡ some a
    → a.id ≡ some k
    → (k == id) ≡ false
    → IsKept id t (receive (ServerFrame.other f) t)
receive-named id k f a t e n h = (
  λ seq g l. ground (
    arith,
    receive-maps f a t e,
    persistent-apart id k a t n h,
    set-kept id k a.seq seq t.recent h g l,
  ),
  ground (arith, receive-maps f a t e, persistent-apart id k a t n h),
)

apart-named :
    (id k : String) (f : OtherFrame) (a : ActivityFrame)
    → is_persistent f ≡ some a
    → a.id ≡ some k
    → IsApart id (ServerFrame.other f)
    → (k == id) ≡ false
apart-named id k f a e n h = ground arith

pub receive-IsKept :
    (id : String) (f : ServerFrame) (t : SseTransport) → IsApart id f → IsKept id t (receive f t)
receive-IsKept id (ServerFrame.other f) t h = elim (Option-cases (is_persistent f)) [
  | inl e ↦
      let same = receive-control f t e in
      same-IsKept id t (receive (ServerFrame.other f) t) same.0 same.1
  | inr (a, e) ↦ elim (Option-cases a.id) [
    | inl n ↦
        let same = receive-unnamed f a t e n in
        same-IsKept id t (receive (ServerFrame.other f) t) same.0 same.1
    | inr (k, n) ↦ receive-named id k f a t e n (apart-named id k f a e n h)
  ]
]
receive-IsKept id (ServerFrame.error e) t h =
    same-IsKept id t (receive (ServerFrame.error e) t) (receive-error e t).0 (receive-error e t).1
receive-IsKept id (ServerFrame.welcome w) t h =
    unfold receive emit in same-IsKept id t (receive (ServerFrame.welcome w) t) refl refl
receive-IsKept id (ServerFrame.ack w) t h =
    unfold receive emit in same-IsKept id t (receive (ServerFrame.ack w) t) refl refl
receive-IsKept id (ServerFrame.delivery_status w) t h =
    unfold receive emit in same-IsKept id t (receive (ServerFrame.delivery_status w) t) refl refl
receive-IsKept id (ServerFrame.presence w) t h =
    unfold receive emit in same-IsKept id t (receive (ServerFrame.presence w) t) refl refl
receive-IsKept id (ServerFrame.token_refreshed w) t h =
    unfold receive emit in same-IsKept id t (receive (ServerFrame.token_refreshed w) t) refl refl
receive-IsKept id (ServerFrame.replay_truncated v w) t h =
    unfold receive emit in same-IsKept id t (receive (ServerFrame.replay_truncated v w) t) refl refl
receive-IsKept id (ServerFrame.heartbeat w) t h =
    unfold receive emit in same-IsKept id t (receive (ServerFrame.heartbeat w) t) refl refl

pub receive_all-awaiting :
    (id : String) (fs : List ServerFrame) (t : SseTransport)
    → All (IsApart id) fs
    → Map.get id (receive_all fs t).awaiting ≡ Map.get id t.awaiting
unfolding receive_all
receive_all-awaiting id [] t h = refl
receive_all-awaiting id (f ∷ fs) t h =
    receive_all-awaiting id fs (receive f t) h.1 ∙ (receive-IsKept id f t h.0).1

pub receive_all-recent :
    (id : String) (seq : ℕ) (fs : List ServerFrame) (t : SseTransport)
    → All (IsApart id) fs
    → Map.get id t.recent ≡ some seq
    → after id t.recent + length fs < 500
    → Map.get id (receive_all fs t).recent ≡ some seq
unfolding receive_all
receive_all-recent id seq [] t h g l = g
receive_all-recent id seq (f ∷ fs) t h g l =
    let kept = (receive-IsKept id f t h.0).0 seq g (omega arith) in
    receive_all-recent id seq fs (receive f t) h.1 kept.0 (omega (arith, kept.1))
