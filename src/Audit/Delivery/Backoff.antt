-- ===== src/Audit/Delivery/Backoff.antt =====
-- audit/delivery.go: how long a delivery waits between two attempts.
use fold.Prelude.{
  ℕ, zero, suc, ◌+◌, ◌-◌, ◌*◌, ◌/◌, ◌^◌, ◌≤◌, ◌<◌, ◌≡◌, arith, Bool-cases, inl, inr, leb,
}
use fold.Audit.Delivery.{RetryPolicy, times, leb_duration, doubled, backoff}

times_two : (d : ℕ) → d < 2 ^ 62 → times d 2 ≡ d * 2
times_two d h = omega arith

-- Durations below 2 ^ 63 are compared as numbers.
leb_small : (a b : ℕ) → a < 2 ^ 63 → b < 2 ^ 63 → leb_duration a b ≡ leb a b
leb_small a b h k = ground arith

doubled_bounds :
    (n cap d : ℕ) → d ≤ cap → cap < 2 ^ 62 → (d ≤ doubled n cap d) × (doubled n cap d ≤ cap)
unfolding doubled
doubled_bounds zero cap d h k = omega arith
doubled_bounds (suc n) cap d h k = elim (Bool-cases (leb cap (d * 2))) [
  | inl e ↦
      rw (times_two d (omega arith), leb_small cap (d * 2) (omega arith) (omega arith), e)
        (omega arith)
  | inr e ↦
      let (low, high) = doubled_bounds n cap (d * 2) (ground arith) k in
      rw (times_two d (omega arith), leb_small cap (d * 2) (omega arith) (omega arith), e)
        (omega arith)
]

-- The delay before an attempt never exceeds the cap, and is at least half of the initial delay
-- rounded down: for a policy whose initial delay is at most its cap and whose cap is below 2 ^ 62
-- nanoseconds, and for every random source that stays below its bound.
pub backoff_bounds :
    (p : RetryPolicy) (attempt : ℕ) (random : ℕ → ℕ)
    → p.initial ≤ p.max
    → p.max < 2 ^ 62
    → ((n : ℕ) → 0 < n → random n < n)
    → (p.initial / 2 ≤ backoff p attempt random) × (backoff p attempt random ≤ p.max)
unfolding backoff
backoff_bounds p attempt random h k r =
    let d = doubled (attempt - 1) p.max p.initial in
    let (low, high) = doubled_bounds (attempt - 1) p.max p.initial h k in
    ground (arith, r (d / 2 + 1))
