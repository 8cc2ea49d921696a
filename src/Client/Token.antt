-- ===== src/Client/Token.antt =====
-- packages/client-ts/src/token.ts: the cached token, its expiry, and one request at a time.
-- `decodeToken` reads a JWT, which is not modelled: its `exp` claim is an argument.
pub mod Expiry
use converger.Prelude.{
  ℕ, ◌+◌, ◌-◌, ◌*◌, ◌≤◌, min, Bool, true, false, not, Option, none, some, String, leb, ltb, ◌==◌,
  StrictEq, string_eq, if◌then◌else◌,
}

-- TokenInfo
pub record TokenInfo : Type 0 where
  pub token : String
  pub expires_at : Option ℕ
  pub expires_in : Option ℕ

-- ActiveToken
pub record ActiveToken : Type 0 where
  pub token : String
  pub expires_at : Option ℕ
  pub received_at : ℕ

-- TokenRequestReason
pub data TokenRequestReason : Type 0 where
  initial refresh rejected : TokenRequestReason

-- TokenManager; `pending` tells whether a request is under way.
pub record TokenManager : Type 0 where
  pub skew_ms : ℕ
  pub current : Option ActiveToken
  pub pending : Bool

-- The expiry that `normalise` settles on: the given time, then the given lifetime, then the claim.
unfoldable pub expiry : Option ℕ → Option ℕ → Option ℕ → ℕ → Option ℕ
expiry (some at) within claim now = some at
expiry none (some seconds) claim now = some (now + seconds * 1000)
expiry none none (some seconds) now = some (seconds * 1000)
expiry none none none now = none

-- normalise; `none` is the `invalid_token` error.
unfoldable pub normalise : (String → Option ℕ) → TokenInfo → ℕ → Option ActiveToken
unfolding expiry
normalise exp_claim info now =
    if info.token == ""
    then none
    else some (record {
      token = info.token;
      expires_at = expiry info.expires_at info.expires_in (exp_claim info.token) now;
      received_at = now;
    })

-- #needsRefresh, with the subtraction moved to the other side.
unfoldable pub needs_refresh : ActiveToken → ℕ → ℕ → Bool
needs_refresh t skew_ms now = elim t.expires_at [
  | none ↦ false
  | some at ↦ leb at (now + min skew_ms 5000)
]

-- What `get` does: hand out the cached token, or call `fetch` for a reason.
pub data Access : Type 0 where
  cached : ActiveToken → Access
  ask : TokenRequestReason → Access

-- get
unfoldable pub get : ℕ → TokenManager → Access
unfolding needs_refresh
get now m = elim m.current [
  | none ↦ ask initial
  | some t ↦ if needs_refresh t m.skew_ms now then ask refresh else cached t
]

-- fetch, up to the provider's answer; whether the provider is called.
unfoldable pub fetch_begin : TokenManager → TokenManager × Bool
fetch_begin m = (record m { pending = true }, not m.pending)

-- fetch, on the provider's answer: `none` where it failed or gave no token.
unfoldable pub fetch_end : Option ActiveToken → TokenManager → TokenManager
fetch_end none m = record m { pending = false }
fetch_end (some t) m = record m { current = some t; pending = false }

-- setExpiry
unfoldable pub set_expiry : Option ℕ → TokenManager → TokenManager
set_expiry none m = m
set_expiry (some at) m = elim m.current [
  | none ↦ m
  | some t ↦ record m { current = some (record t { expires_at = some at }) }
]

-- #skewFor, doubled: half a lifetime may be half a millisecond.
unfoldable pub double_skew : ℕ → ActiveToken → ℕ → ℕ
double_skew skew_ms t at =
    if ltb t.received_at at then min (2 * skew_ms) (at - t.received_at) else 2 * skew_ms

-- refreshDelay, doubled.
unfoldable pub double_refresh_delay : ℕ → TokenManager → Option ℕ
unfolding double_skew
double_refresh_delay now m = elim m.current [
  | none ↦ none
  | some t ↦ elim t.expires_at [
    | none ↦ none
    | some at ↦ some (2 * at - double_skew m.skew_ms t at - 2 * now)
  ]
]
