-- ===== src/Client/Transport/Sse/Acks.antt =====
-- sse.ts: the ack of a turn, from the answer to its POST and its frame on the stream.
use converger.Prelude.{
  ℕ, ◌≤◌, ◌≡◌, refl, false, none, some, String, List, [], ◌∷◌, ◌++◌, All, arith, string_eq, ◌==◌,
  length, append_assoc, same_refl,
}
use converger.Js.Map
use converger.Js.Map.{Map, map_laws}
use converger.Client.Frames.{ServerFrame, ClientMessage, ActivityFrame, OtherFrame, is_persistent}
use converger.Client.Transport.Sse.Session.{
  SseTransport, on_frame, emit, evict, remember, settle, persistent, receive, ack_of, accept,
  accepted, post_result,
}
use converger.Client.Transport.Sse.Recent.{
  after, after-new, evict-kept, IsApart, receive_all, receive-maps, receive_all-awaiting,
  receive_all-recent,
}

settle-recent : (k : String) (seq : ℕ) (t : SseTransport) → (settle k seq t).recent ≡ t.recent
unfolding settle emit
settle-recent k seq t = ground arith

persistent-named :
    (id : String) (a : ActivityFrame) (t : SseTransport)
    → a.id ≡ some id
    → persistent a t ≡ settle id a.seq (remember id a.seq t)
unfolding persistent
persistent-named id a t n = ground arith

remember-recent :
    (id : String) (seq : ℕ) (t : SseTransport)
    → (remember id seq t).recent ≡ evict (Map.set id seq t.recent)
unfolding remember
remember-recent id seq t = refl

set-new :
    (id : String) (seq : ℕ) (m : Map String ℕ)
    → Map.get id m ≡ none
    → (Map.get id (evict (Map.set id seq m)) ≡ some seq) × (after id (evict (Map.set id seq m)) ≤ 0)
set-new id seq m g = ground (
  arith,
  Map.get-set id id seq m,
  same_refl id,
  after-new id seq m g,
  evict-kept id seq (Map.set id seq m),
)

receive-recent :
    (id : String) (f : OtherFrame) (a : ActivityFrame) (t : SseTransport)
    → is_persistent f ≡ some a
    → a.id ≡ some id
    → Map.get id t.recent ≡ none
    → (Map.get id (receive (ServerFrame.other f) t).recent ≡ some a.seq)
      × (after id (receive (ServerFrame.other f) t).recent ≤ 0)
receive-recent id f a t e n g = ground (
  arith,
  receive-maps f a t e,
  persistent-named id a t n,
  settle-recent id a.seq (remember id a.seq t),
  remember-recent id a.seq t,
  set-new id a.seq t.recent g,
)

post_result-accepted :
    (m : ClientMessage) (id : String) (t : SseTransport)
    → (m.client_id == "") ≡ false
    → post_result m (accepted (some id)) t ≡ accept m.client_id id t
unfolding post_result
post_result-accepted m id t named = ground arith

accept-remembered :
    (client_id id : String) (seq : ℕ) (t : SseTransport)
    → Map.get id t.recent ≡ some seq
    → (accept client_id id t).effects ≡ t.effects ++ on_frame (ack_of client_id id seq) ∷ []
unfolding accept emit
accept-remembered client_id id seq t g = ground arith

accept-awaited :
    (client_id id : String) (t : SseTransport)
    → Map.get id t.recent ≡ none
    → Map.get id (accept client_id id t).awaiting ≡ some client_id
unfolding accept
accept-awaited client_id id t g =
    ground (arith, Map.get-set id id client_id t.awaiting, same_refl id)

settle-awaited :
    (client_id id : String) (seq : ℕ) (t : SseTransport)
    → Map.get id t.awaiting ≡ some client_id
    → ((settle id seq t).effects ≡ t.effects ++ on_frame (ack_of client_id id seq) ∷ [])
      × (Map.get id (settle id seq t).awaiting ≡ none)
unfolding settle emit
settle-awaited client_id id seq t g = ground (arith, Map.get-delete id id t.awaiting, same_refl id)

-- A turn's frame where the turn is awaited.
receive-awaited :
    (client_id id : String) (f : OtherFrame) (a : ActivityFrame) (t : SseTransport)
    → is_persistent f ≡ some a
    → a.id ≡ some id
    → Map.get id t.awaiting ≡ some client_id
    → ((receive (ServerFrame.other f) t).effects
        ≡ t.effects ++ on_frame (ack_of client_id id a.seq) ∷ on_frame (ServerFrame.other f) ∷ [])
      × (Map.get id (receive (ServerFrame.other f) t).awaiting ≡ none)
unfolding receive emit remember
receive-awaited client_id id f a t e n g = ground (
  arith,
  persistent-named id a t n,
  settle-awaited client_id id a.seq (remember id a.seq t) g,
  append_assoc t.effects (on_frame (ack_of client_id id a.seq) ∷ [])
      (on_frame (ServerFrame.other f) ∷ []),
)

-- Where the frame of a turn came before the answer to its POST, with at most 499 other frames between, the answer
-- is followed at once by the ack, with the frame's seq.
pub frame_first_acked :
    (m : ClientMessage) (id : String) (f : OtherFrame) (a : ActivityFrame) (fs : List ServerFrame)
    (t : SseTransport)
    → (m.client_id == "") ≡ false
    → is_persistent f ≡ some a
    → a.id ≡ some id
    → Map.get id t.recent ≡ none
    → All (IsApart id) fs
    → length fs ≤ 499
    → (post_result m
        (accepted (some id))
        (receive_all fs (receive (ServerFrame.other f) t))).effects
      ≡ (receive_all fs (receive (ServerFrame.other f) t)).effects
        ++ on_frame (ack_of m.client_id id a.seq) ∷ []
frame_first_acked m id f a fs t named e n new h l =
    let t1 = receive_all fs (receive (ServerFrame.other f) t) in
    let started = receive-recent id f a t e n new in
    rw (post_result-accepted m id t1 named) (
      accept-remembered m.client_id id a.seq t1 (
        receive_all-recent id a.seq fs (receive (ServerFrame.other f) t) h started.0
          (omega (arith, started.1))))

-- Where the answer to the POST of a turn came first, the turn's frame is preceded by the ack, with the frame's seq,
-- and the turn is no longer awaited, whatever other frames came between.
pub post_first_acked :
    (m : ClientMessage) (id : String) (f : OtherFrame) (a : ActivityFrame) (fs : List ServerFrame)
    (t : SseTransport)
    → (m.client_id == "") ≡ false
    → is_persistent f ≡ some a
    → a.id ≡ some id
    → Map.get id t.recent ≡ none
    → All (IsApart id) fs
    → ((receive
          (ServerFrame.other f)
          (receive_all fs (post_result m (accepted (some id)) t))).effects
        ≡ (receive_all fs (post_result m (accepted (some id)) t)).effects
          ++ on_frame (ack_of m.client_id id a.seq) ∷ on_frame (ServerFrame.other f) ∷ [])
      × (Map.get id
            (receive
              (ServerFrame.other f)
              (receive_all fs (post_result m (accepted (some id)) t))).awaiting
          ≡ none)
post_first_acked m id f a fs t named e n new h =
    let t1 = receive_all fs (post_result m (accepted (some id)) t) in
    receive-awaited m.client_id id f a t1 e n (
      ground (
        arith,
        receive_all-awaiting id fs (post_result m (accepted (some id)) t) h,
        post_result-accepted m id t named,
        accept-awaited m.client_id id t new,
      ))
