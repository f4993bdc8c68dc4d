-- ===== src/Reliability/LoadGuard/Throttle.antt =====
-- The parallelism that the throttle leaves.
use native.Mathlib.Nat.{
  div-le_of_le-mul, le-div_iff_mul-le, div-one, mul-one, mul-pos, mul-le-mul_left, mul-le-mul_right,
}
use ai_chatbot_platform.Prelude.{
  ℕ, ◌-◌, ◌*◌, ◌/◌, ◌≤◌, ◌<◌, max, ◌≡◌, arith, false, Bool-cases, inl, inr, ◌⊎◌,
}
use ai_chatbot_platform.Reliability.LoadGuard.{
  Fraction, leb_fraction, factor_at, SwarmThrottle, total_utilization, utilization,
  get_effective_parallelism,
}

-- Numerator and denominator of the factor above the threshold.
ramp-le : (d p : ℕ) → max d (10 * d - 9 * p) ≤ 10 * d
ramp-le d p = omega arith

scaled-le : (base num den : ℕ) → 0 < den → num ≤ den → base * num / den ≤ base
scaled-le base num den pos le = div-le_of_le-mul den (omega (arith, mul-le-mul_left base le))

le-scaled : (base num den : ℕ) → 0 < den → den ≤ 10 * num → base / 10 ≤ base * num / den
le-scaled base num den pos le =
    let tenth : 10 * (base / 10) ≤ base = omega arith in
    (le-div_iff_mul-le pos).1
      (omega (arith, mul-le-mul_left (base / 10) le, mul-le-mul_right num tenth))

-- The factor lies between a tenth and one.
record IsFactor (f : Fraction) : Type 0 where
  positive : 0 < f.den
  at_most : f.num ≤ f.den
  at_least : f.den ≤ 10 * f.num

factor_at-IsFactor : (t u : Fraction) → t.num < t.den → 0 < u.den → IsFactor (factor_at t u)
unfolding factor_at
factor_at-IsFactor t u lt pos = elim (Bool-cases (leb_fraction u t)) [
  | inl below ↦
      rw below (record { positive = omega arith; at_most = omega arith; at_least = omega arith })
  | inr above ↦
      let whole = u.den * (t.den - t.num) in
      let some_left : 0 < whole = mul-pos pos (omega arith) in
      rw above (record { positive = omega arith; at_most = omega arith; at_least = omega arith })
]

total_utilization_den : (s : SwarmThrottle) → 0 < (total_utilization s).den
unfolding total_utilization utilization
total_utilization_den s = ground arith

-- For a threshold below 1 the throttle never stops the swarm and never widens it: the effective
-- parallelism lies between a tenth of the base, or 1, and the base, or 1. At or below the threshold
-- it is the base, or 1.
pub get_effective_parallelism_bounds :
    (s : SwarmThrottle) (base : ℕ)
    → s.pressure_threshold.num < s.pressure_threshold.den
    → (max 1 (base / 10) ≤ get_effective_parallelism s base)
      × (get_effective_parallelism s base ≤ max 1 base)
      × ((leb_fraction (total_utilization s) s.pressure_threshold ≡ false)
          ⊎ (get_effective_parallelism s base ≡ max 1 base))
unfolding get_effective_parallelism
get_effective_parallelism_bounds s base lt =
    let t = s.pressure_threshold in
    let u = total_utilization s in
    let f = factor_at-IsFactor t u lt (total_utilization_den s) in
    (
      omega (arith, le-scaled base (factor_at t u).num (factor_at t u).den f.positive f.at_least),
      omega (arith, scaled-le base (factor_at t u).num (factor_at t u).den f.positive f.at_most),
      elim (Bool-cases (leb_fraction u t)) [
        | inl below ↦ inr (unfold factor_at in rw below (rw (div-one, mul-one)))
        | inr above ↦ inl above
      ],
    )
