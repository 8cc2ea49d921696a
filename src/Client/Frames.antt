-- ===== src/Client/Frames.antt =====
-- packages/client-ts/src/protocol/frames.ts: the frames of Converger Protocol v1 as the client reads
-- and writes them. A JSON value that the client only carries is its text (`Json`).
use converger.Prelude.{ℕ, suc, Bool, Option, String, [], ◌∷◌, string_eq, if◌then◌else◌}
use converger.Js.Set

abbrev pub Json : Type 0
Json = String

-- A JavaScript number, as far as the tests `Number.isInteger(n)` and `n > 0` tell numbers apart.
pub data JsNumber : Type 0 where
  nat : ℕ → JsNumber
  negative_integer : ℕ → JsNumber
  not_integer : JsNumber

-- A field of a frame that the code reads with a `typeof` test.
pub data Field {ℓ} (A : Type ℓ) : Type ℓ where
  value : A → Field A
  other_type : Field A

-- What a welcome announces, of `data` the fields that a session reads.
pub record WelcomeData : Type 0 where
  pub conversation_id : String
  pub user_id : Option String
  pub watermark : Option ℕ
  pub expires_at : Option ℕ
  pub max_in_flight : Option ℕ

-- A persistent frame; `body` is all that the session hands on unread.
pub record ActivityFrame : Type 0 where
  pub frame_type : String
  pub id : Option String
  pub seq : ℕ
  pub from : Option String
  pub client_id : Option String
  pub body : Json

pub record AckFrame : Type 0 where
  pub client_id : String
  pub id : String
  pub seq : Option ℕ
  pub timestamp : Option ℕ
  pub duplicate : Bool

pub record ErrorFrame : Type 0 where
  pub code : String
  pub message : String
  pub retryable : Bool
  pub retry_after_ms : Option ℕ
  pub client_id : Option String
  pub frame_type : Option String
  pub details_watermark : Option ℕ

-- A frame that the `switch` of a session sends to its default branch: its type, its `seq` field
-- as it came, and the rest.
pub record OtherFrame : Type 0 where
  pub frame_type : String
  pub seq : Field JsNumber
  pub id : Option String
  pub from : Option String
  pub client_id : Option String
  pub body : Json

pub data ServerFrame : Type 0 where
  welcome : WelcomeData → ServerFrame
  ack : AckFrame → ServerFrame
  error : ErrorFrame → ServerFrame
  delivery_status : Json → ServerFrame
  presence : Json → ServerFrame
  token_refreshed : Option ℕ → ServerFrame
  replay_truncated : ℕ → ℕ → ServerFrame
  heartbeat : Option ℕ → ServerFrame
  other : OtherFrame → ServerFrame

pub record ClientMessage : Type 0 where
  pub client_id : String
  pub text : String
  pub attachments : Option Json
  pub metadata : Option Json
  pub meta : Option Json
  pub reply_to : Option String

pub data ClientFrame : Type 0 where
  text : ClientMessage → ClientFrame
  sync : ℕ → ClientFrame
  auth : String → ClientFrame
  typing : Bool → ClientFrame
  read : ℕ → ClientFrame

-- CONTROL_TYPES
abbrev pub control_types : Set.Set String
control_types =
    "welcome" ∷ "ack" ∷ "error" ∷ "deliveryStatus" ∷ "presence" ∷ "heartbeat" ∷ "tokenRefreshed"
    ∷ "replayTruncated" ∷ "run" ∷ "genui_components" ∷ "skills" ∷ []

-- The tests of `isPersistent` on `seq`; the number where they pass.
unfoldable pub positive_integer : Field JsNumber → Option ℕ
positive_integer (value (nat (suc n))) = Option.some (suc n)
positive_integer (value n) = Option.none
positive_integer other_type = Option.none

-- isPersistent, with the typed view of the frame where it holds.
unfoldable pub is_persistent : OtherFrame → Option ActivityFrame
unfolding positive_integer
is_persistent f =
    if Set.has f.frame_type control_types then Option.none else elim (positive_integer f.seq) [
      | Option.none ↦ Option.none
      | Option.some n ↦ Option.some (record {
        frame_type = f.frame_type;
        id = f.id;
        seq = n;
        from = f.from;
        client_id = f.client_id;
        body = f.body;
      })
    ]

-- RETRYABLE_SEND_ERRORS
abbrev pub retryable_send_errors : Set.Set String
retryable_send_errors = "rate_limited" ∷ "too_many_in_flight" ∷ "unavailable" ∷ "internal" ∷ []
