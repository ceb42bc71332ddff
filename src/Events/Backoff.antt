-- ===== src/Events/Backoff.antt =====
-- The delay between attempts.
use alchemist_template.Common.{ℕ, suc, ◌+◌, ◌-◌, ◌*◌, ◌/◌, ◌^◌, ◌≤◌, ◌<◌, min, ◌≡◌, ap, arith}
use native.Mathlib.Nat.{
  one-le-pow, pow-suc, div-lt_iff_lt-mul, lt-div-mul-add, mul-le-mul_left, lt_of_mul-lt-mul_left,
}
use alchemist_template.Events.Finish.{
  Random, backoff_cap_ms, exponential_ms, clamped_numerator, compute_backoff_ms,
}

exponential_bounds :
    (attempt : ℕ) → (1000 ≤ exponential_ms attempt) × (exponential_ms attempt ≤ 3600000)
unfolding exponential_ms
exponential_bounds attempt = omega (arith, one-le-pow (attempt - 1) 2 (omega arith))

clamped_le : (r : Random) → clamped_numerator r ≤ r.below + 1
unfolding clamped_numerator
clamped_le r = ground arith

shift : (a : ℕ) → a + 2 - 1 ≡ suc a
shift a = omega arith

shift' : (a : ℕ) → a + 1 - 1 ≡ a
shift' a = omega arith

-- Up to the cap, one more attempt doubles the delay.
pub exponential_doubles :
    (attempt : ℕ)
    → exponential_ms (attempt + 2) ≡ min backoff_cap_ms (2 * exponential_ms (attempt + 1))
unfolding exponential_ms
exponential_doubles attempt = omega (
  arith,
  pow-suc 2 attempt,
  ap (λ (k : ℕ). 2 ^ k) (shift attempt),
  ap (λ (k : ℕ). 2 ^ k) (shift' attempt),
)

le_of_lt_suc : {a b : ℕ} → a < b + 1 → a ≤ b
le_of_lt_suc h = omega arith

module _ (e d n : ℕ) (pos_d : 0 < d) (n_le : n ≤ d) where
  rounded_le : (e * (d + n) + d) / (2 * d) ≤ e
  rounded_le =
      le_of_lt_suc
        ((div-lt_iff_lt-mul {y = e + 1} (omega arith)).1 (omega (arith, mul-le-mul_left e n_le)))

  le_rounded : e ≤ 2 * ((e * (d + n) + d) / (2 * d))
  le_rounded =
      let q = (e * (d + n) + d) / (2 * d) in
      let near : e * (d + n) + d < q * (2 * d) + 2 * d = lt-div-mul-add (omega arith) in
      let scaled : d * (e + 1) < d * (2 * q + 2) = omega arith in
      let cut : e + 1 < 2 * q + 2 = lt_of_mul-lt-mul_left d scaled in omega arith

-- Whatever `random()` gives, the delay lies between half the exponential delay and all of it, so it
-- is at least half a second and at most an hour.
pub backoff_bounds :
    (attempt : ℕ) (r : Random)
    → (exponential_ms attempt ≤ 2 * compute_backoff_ms attempt r)
      × (compute_backoff_ms attempt r ≤ exponential_ms attempt)
      × (500 ≤ compute_backoff_ms attempt r)
      × (compute_backoff_ms attempt r ≤ 3600000)
unfolding compute_backoff_ms
backoff_bounds attempt r =
    let up =
      rounded_le (exponential_ms attempt) (r.below + 1) (clamped_numerator r) (omega arith)
        (clamped_le r) in
    let low =
      le_rounded (exponential_ms attempt) (r.below + 1) (clamped_numerator r) (omega arith)
        (clamped_le r) in
    let ends = exponential_bounds attempt in (low, up, omega arith, omega arith)
