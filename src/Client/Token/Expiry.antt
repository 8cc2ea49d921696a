-- ===== src/Client/Token/Expiry.antt =====
-- token.ts: when a token is refreshed, and when it is handed out of the cache.
use converger.Prelude.{ℕ, ◌+◌, ◌*◌, ◌<◌, ◌≡◌, some, arith, string_eq}
use converger.Client.Token.{TokenManager, ActiveToken, double_skew, double_refresh_delay}

-- With a token that has not expired and a skew that is not 0, the refresh is due before the expiry; both
-- sides are doubled.
pub refresh_before_expiry :
    (now d at : ℕ) (m : TokenManager) (t : ActiveToken)
    → m.current ≡ some t
    → t.expires_at ≡ some at
    → 0 < m.skew_ms
    → now < at
    → double_refresh_delay now m ≡ some d
    → 2 * now + d < 2 * at
unfolding double_refresh_delay double_skew
refresh_before_expiry now d at m t current expires skew alive h = ground arith
