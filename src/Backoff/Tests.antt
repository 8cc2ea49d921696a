-- ===== src/Backoff/Tests.antt =====
-- The reconnect delays on a concrete policy.
use converger.Prelude.{◌*◌, ◌/◌, ◌≤◌, ◌≡◌, refl, max, none, some, true, arith}
use converger.Backoff.{
  Fraction, ResolvedReconnect, base_delay, backoff_delay, round, jittered, absent,
  resolve_client_reconnect,
}
use converger.Backoff.Bounds.{IsProper, backoff_bounds}

abbrev policy : ResolvedReconnect
policy = record {
  enabled = true;
  initial_delay_ms = 1000;
  max_delay_ms = 10000;
  factor = 2;
  jitter = record { num = 1; den = 2 };
  max_attempts = none;
}

abbrev half : Fraction
half = record { num = 1; den = 2 }

default_policy : resolve_client_reconnect absent ≡ policy
unfolding resolve_client_reconnect
default_policy = refl

third_delay : backoff_delay 3 policy none half ≡ 3000
unfolding backoff_delay round base_delay jittered
third_delay = refl

proper : IsProper policy half
proper = record {
  jitter_den = omega arith;
  jitter_le = omega arith;
  random_den = omega arith;
  random_le = omega arith;
}

backoff_bounds_example :
    (2500 ≤ backoff_delay 3 policy (some 2500) half)
    × (base_delay 3 policy * 1 / 2 ≤ backoff_delay 3 policy (some 2500) half)
    × (backoff_delay 3 policy (some 2500) half ≤ max (base_delay 3 policy) 2500)
    × (base_delay 3 policy ≤ 10000)
backoff_bounds_example = backoff_bounds 3 policy (some 2500) half proper
