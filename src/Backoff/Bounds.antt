-- ===== src/Backoff/Bounds.antt =====
-- backoff.ts: the range of a delay.
use native.Mathlib.Nat.{mul-le-mul_left, mul-le-mul_right, div-mul-le_self}
use converger.Prelude.{ℕ, ◌+◌, ◌-◌, ◌*◌, ◌/◌, ◌≤◌, ◌<◌, ◌≡◌, max, Option, arith, ap}
use converger.Backoff.{
  Fraction, ResolvedReconnect, or_default, round, base_delay, jittered, backoff_delay,
}

-- Rounding stays within bounds that are whole numbers.
round-le : (num den b : ℕ) → 0 < den → num ≤ b * den → round num den ≤ b
unfolding round
round-le num den b pos h = grind arith

le-round : (num den b : ℕ) → 0 < den → b * den ≤ num → b ≤ round num den
unfolding round
le-round num den b pos h = grind arith

-- A jitter of at most 1 and a draw of at most 1.
pub record IsProper (policy : ResolvedReconnect) (random : Fraction) : Type 0 where
  pub jitter_den : 0 < policy.jitter.den
  pub jitter_le : policy.jitter.num ≤ policy.jitter.den
  pub random_den : 0 < random.den
  pub random_le : random.num ≤ random.den

spread_sum :
    (base jn d rn rd : ℕ) → rn ≤ rd → base * d * rd + rn * base * jn ≤ base * ((jn + d) * rd)
spread_sum base jn d rn rd k = omega (arith, mul-le-mul_left (base * jn) k)

jittered_le :
    (base : ℕ) (policy : ResolvedReconnect) (random : Fraction)
    → IsProper policy random
    → jittered base policy random ≤ base * (policy.jitter.den * random.den)
unfolding jittered
jittered_le base policy random h =
    let jn = policy.jitter.num in
    let d = policy.jitter.den - jn in
    let e : policy.jitter.den ≡ jn + d = omega arith in
    omega (
      arith,
      spread_sum base jn d random.num random.den h.random_le,
      ap (λ (x : ℕ). base * (x * random.den)) e,
    )

share_le : (x jd rd : ℕ) → x / jd * (jd * rd) ≤ x * rd
share_le x jd rd = omega (arith, mul-le-mul_left rd (div-mul-le_self x jd))

positive_product : (a b : ℕ) → 0 < a → 0 < b → 0 < a * b
positive_product a b h k = grind arith

le-jittered :
    (base : ℕ) (policy : ResolvedReconnect) (random : Fraction)
    → base * (policy.jitter.den - policy.jitter.num) * random.den ≤ jittered base policy random
unfolding jittered
le-jittered base policy random = omega arith

base_delay-le :
    (attempt : ℕ) (policy : ResolvedReconnect) → base_delay attempt policy ≤ policy.max_delay_ms
unfolding base_delay
base_delay-le attempt policy = omega arith

le-max_left : (a b : ℕ) → a ≤ max a b
le-max_left a b = omega arith

le-max_right : (a b : ℕ) → b ≤ max a b
le-max_right a b = omega arith

max_times : (a b q m : ℕ) → m ≤ a * q → max m (b * q) ≤ max a b * q
max_times a b q m h =
    omega (arith, mul-le-mul_right q (le-max_left a b), mul-le-mul_right q (le-max_right a b))

module _ (attempt : ℕ) (policy : ResolvedReconnect) (retry_after_ms : Option ℕ) (random : Fraction)
    (proper : IsProper policy random) where
  abbrev base : ℕ
  base = base_delay attempt policy

  abbrev den : ℕ
  den = policy.jitter.den * random.den

  den_pos : 0 < den
  den_pos = positive_product policy.jitter.den random.den proper.jitter_den proper.random_den

  -- With a jitter and a draw of at most 1, the delay is at least the server's `retryAfterMs` and at
  -- least the part of the capped exponential delay that the jitter leaves fixed, rounded down; it is
  -- at most the greater of the capped delay and `retryAfterMs`, and the capped delay is at most
  -- `maxDelayMs`.
  pub backoff_bounds :
      (or_default retry_after_ms 0 ≤ backoff_delay attempt policy retry_after_ms random)
      × (base_delay attempt policy * (policy.jitter.den - policy.jitter.num) / policy.jitter.den
          ≤ backoff_delay attempt policy retry_after_ms random)
      × (backoff_delay attempt policy retry_after_ms random
          ≤ max (base_delay attempt policy) (or_default retry_after_ms 0))
      × (base_delay attempt policy ≤ policy.max_delay_ms)
  unfolding backoff_delay
  backoff_bounds = (
    le-round numerator den floor den_pos (omega arith),
    le-round numerator den share den_pos (
        omega (
          arith,
          share_le (base * (policy.jitter.den - policy.jitter.num)) policy.jitter.den random.den,
          le-jittered base policy random,
        )),
    round-le numerator den (max base floor) den_pos (
        max_times base floor den (jittered base policy random)
          (jittered_le base policy random proper)),
    base_delay-le attempt policy,
  )
    where
      floor : ℕ
      floor = or_default retry_after_ms 0

      numerator : ℕ
      numerator = max (jittered base policy random) (floor * den)

      share : ℕ
      share = base * (policy.jitter.den - policy.jitter.num) / policy.jitter.den
