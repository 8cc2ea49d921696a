-- ===== src/Backoff.antt =====
-- packages/client-ts/src/backoff.ts and packages/agent-ts/src/backoff.ts: jittered exponential
-- reconnect delays. The jitter and the random draw are fractions, and the delay is computed with
-- exact fractions before it is rounded; the growth factor is a natural number.
pub mod Bounds
mod Tests
use converger.Prelude.{
  ℕ, zero, suc, ◌+◌, ◌-◌, ◌*◌, ◌/◌, ◌^◌, min, max, Bool, true, false, Option, none, some,
  if◌then◌else◌,
}

-- `num / den`.
pub record Fraction : Type 0 where
  pub num : ℕ
  pub den : ℕ

-- ResolvedReconnect; no `max_attempts` is `Infinity`.
pub record ResolvedReconnect : Type 0 where
  pub enabled : Bool
  pub initial_delay_ms : ℕ
  pub max_delay_ms : ℕ
  pub factor : ℕ
  pub jitter : Fraction
  pub max_attempts : Option ℕ

-- ReconnectOptions
pub record ReconnectOptions : Type 0 where
  pub enabled : Option Bool
  pub initial_delay_ms : Option ℕ
  pub max_delay_ms : Option ℕ
  pub factor : Option ℕ
  pub jitter : Option Fraction
  pub max_attempts : Option ℕ

-- `reconnect: false`, or options that may be absent.
pub data ReconnectOption : Type 0 where
  off absent : ReconnectOption
  options : ReconnectOptions → ReconnectOption

abbrev no_options : ReconnectOptions
no_options = record {
  enabled = none;
  initial_delay_ms = none;
  max_delay_ms = none;
  factor = none;
  jitter = none;
  max_attempts = none;
}

abbrev given : ReconnectOption → ReconnectOptions
given off = record no_options { enabled = some false }
given absent = no_options
given (options o) = o

-- `value ?? fallback`
abbrev pub or_default {ℓ} : {A : Type ℓ} → Option A → A → A
or_default none fallback = fallback
or_default (some a) fallback = a

-- The least of a fraction and 1.
abbrev at_most_one : Fraction → Fraction
at_most_one f = record f { num = min f.den f.num }

-- The defaults of both packages, which differ in `max_delay_ms`.
unfoldable pub resolve_with : ℕ → ReconnectOption → ResolvedReconnect
resolve_with default_max_delay_ms option =
    let o = given option in
    record {
      enabled = or_default o.enabled true;
      initial_delay_ms = or_default o.initial_delay_ms 1000;
      max_delay_ms = or_default o.max_delay_ms default_max_delay_ms;
      factor = or_default o.factor 2;
      jitter = at_most_one (or_default o.jitter (record { num = 1; den = 2 }));
      max_attempts = o.max_attempts;
    }

-- resolveReconnect of client-ts
unfoldable pub resolve_client_reconnect : ReconnectOption → ResolvedReconnect
unfolding resolve_with
resolve_client_reconnect option = resolve_with 10000 option

-- resolveReconnect of agent-ts
unfoldable pub resolve_agent_reconnect : ReconnectOption → ResolvedReconnect
unfolding resolve_with
resolve_agent_reconnect option = resolve_with 30000 option

-- Math.round(num / den): halves go up.
unfoldable pub round : ℕ → ℕ → ℕ
round num den = (2 * num + den) / (2 * den)

-- The exponential delay, capped.
unfoldable pub base_delay : ℕ → ResolvedReconnect → ℕ
base_delay attempt policy =
    min policy.max_delay_ms (policy.initial_delay_ms * policy.factor ^ (attempt - 1))

-- The delay with its jitter, as a numerator over `policy.jitter.den * random.den`.
unfoldable pub jittered : ℕ → ResolvedReconnect → Fraction → ℕ
jittered base policy random =
    base * (policy.jitter.den - policy.jitter.num) * random.den
    + random.num * base * policy.jitter.num

-- backoffDelay
unfoldable pub backoff_delay : ℕ → ResolvedReconnect → Option ℕ → Fraction → ℕ
backoff_delay attempt policy retry_after_ms random =
    let base = base_delay attempt policy in
    let den = policy.jitter.den * random.den in
    let floor = or_default retry_after_ms 0 in
    round (max (jittered base policy random) (floor * den)) den
