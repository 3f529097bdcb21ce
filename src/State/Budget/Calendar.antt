-- ===== src/State/Budget/Calendar.antt =====
-- internal/state/budget.go: `Period.next` cuts time into windows.
use fold.Prelude.{ℕ, zero, suc, ◌+◌, ◌*◌, ◌/◌, ◌≤◌, ◌<◌, ◌==◌, if◌then◌else◌, ◌≡◌, ap, arith}
use fold.State.Budget.{
  Period, hour, day, month, other, day_ns, days_in_month, month_end, next_month, next_instant,
}

days_in_month-pos : (y m : ℕ) → 0 < days_in_month y m
unfolding days_in_month
days_in_month-pos y m = ground arith

month_end-gt : (fuel y m start d : ℕ) → d < start + fuel → d < month_end fuel y m start d
unfolding month_end
month_end-gt zero y m start d h = omega arith
month_end-gt (suc fuel) y m start d h =
    let y' = if m == 12 then y + 1 else y in
    let m' = if m == 12 then 1 else m + 1 in
    let stop = start + days_in_month y m in
    ground (arith, days_in_month-pos y m, month_end-gt fuel y' m' stop d)

month_end-same :
    (fuel fuel' y m start d d' : ℕ)
    → start ≤ d
    → d < start + fuel
    → d' < start + fuel'
    → d ≤ d'
    → d' < month_end fuel y m start d
    → month_end fuel' y m start d' ≡ month_end fuel y m start d
unfolding month_end
month_end-same zero fuel' y m start d d' a h k l b = absurd (omega arith)
month_end-same (suc fuel) zero y m start d d' a h k l b = absurd (omega arith)
month_end-same (suc fuel) (suc fuel') y m start d d' a h k l b =
    let y' = if m == 12 then y + 1 else y in
    let m' = if m == 12 then 1 else m + 1 in
    let stop = start + days_in_month y m in
    ground (arith, days_in_month-pos y m, month_end-same fuel fuel' y' m' stop d d')

next_month-gt : (t : ℕ) → t < next_month t
unfolding next_month
next_month-gt t = let d = t / day_ns in omega (arith, month_end-gt (d + 1) 1970 1 0 d (omega arith))

next_month-same : (t s : ℕ) → t ≤ s → s < next_month t → next_month s ≡ next_month t
unfolding next_month
next_month-same t s h k =
    let d = t / day_ns in
    let d' = s / day_ns in
    ap (λ n. n * day_ns)
      (month_end-same (d + 1) (d' + 1) 1970 1 0 d d' (omega arith) (omega arith) (omega arith)
        (omega arith) (omega arith))

-- Every instant lies before the end of its window.
pub next_instant-gt : (p : Period) (t : ℕ) → t < next_instant p t
unfolding next_instant
next_instant-gt hour t = omega arith
next_instant-gt day t = omega arith
next_instant-gt month t = next_month-gt t
next_instant-gt (other s) t = next_month-gt t

-- Two instants of one window have the same end: every instance of a fleet computes the same windows.
pub next_instant-same :
    (p : Period) (t s : ℕ) → t ≤ s → s < next_instant p t → next_instant p s ≡ next_instant p t
unfolding next_instant
next_instant-same hour t s h k = omega arith
next_instant-same day t s h k = omega arith
next_instant-same month t s h k = next_month-same t s h k
next_instant-same (other x) t s h k = next_month-same t s h k
