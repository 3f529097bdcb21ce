-- ===== src/State/Budget.antt =====
-- internal/state/budget.go: calendar periods and the in-process budget. A time is in nanoseconds
-- since 1970 in UTC; the zero time of a new budget is 0, which no clock reading precedes.
pub mod Calendar
pub mod Window
use fold.Prelude.{
  ℕ, zero, suc, ◌+◌, ◌-◌, ◌*◌, ◌/◌, ◌%◌, ◌^◌, ℤ, is_positive, pos_part, Bool, true, false, not,
  ◌&&◌, ◌||◌, Str, ltb, leb, ◌==◌, if◌then◌else◌,
}

-- A `Period` is a string: the three that are known, or any other.
pub data Period : Type 0 where
  hour day month : Period
  other : Str → Period

unfoldable pub valid : Period → Bool
valid (other s) = false
valid _ = true

abbrev pub hour_ns : ℕ
hour_ns = 3_600_000_000_000

abbrev pub day_ns : ℕ
day_ns = 86_400_000_000_000

abbrev pub divides : ℕ → ℕ → Bool
divides k n = n % k == 0

unfoldable pub is_leap : ℕ → Bool
is_leap y = divides 4 y && (not (divides 100 y) || divides 400 y)

unfoldable pub days_in_month : ℕ → ℕ → ℕ
unfolding is_leap
days_in_month y m =
    if m == 2
    then if is_leap y then 29 else 28
    else if m == 4 || m == 6 || m == 9 || m == 11
    then 30
    else 31

-- The day on which the month of day `d` ends, walking the calendar from the month that begins on
-- day `start`.
unfoldable pub month_end : ℕ → ℕ → ℕ → ℕ → ℕ → ℕ
unfolding days_in_month
month_end zero y m start d = start
month_end (suc fuel) y m start d =
    let stop = start + days_in_month y m in
    let later =
      month_end fuel (if m == 12 then y + 1 else y) (if m == 12 then 1 else m + 1) stop d in
    if ltb d stop then stop else later

-- `time.Date(y, m, 1, ...).AddDate(0, 1, 0)`; a month has a day, so the day number is fuel enough.
unfoldable pub next_month : ℕ → ℕ
unfolding month_end
next_month t = let d = t / day_ns in month_end (d + 1) 1970 1 0 d * day_ns

unfoldable pub next_instant : Period → ℕ → ℕ
unfolding next_month
next_instant hour t = t / hour_ns * hour_ns + hour_ns
next_instant day t = t / day_ns * day_ns + day_ns
next_instant month t = next_month t
next_instant (other s) t = next_month t

-- `ttl`: one hour of slack beyond the rest of the window.
unfoldable pub record_ttl : Period → ℕ → ℕ
unfolding next_instant
record_ttl p now = next_instant p now - now + hour_ns

pub record BudgetResult : Type 0 where
  pub allowed : Bool
  pub used : ℕ
  pub limit : ℕ
  pub resets : ℕ
  pub degraded : Bool

-- `used` and the amounts are int64 bit patterns.
pub record MemBudget : Type 0 where
  pub period : Period
  pub limit : ℕ
  pub window_end : ℕ
  pub used : ℕ

pub data Budget : Type 0 where
  unlimited : Budget
  mem : MemBudget → Budget

unfoldable pub new_budget : Period → ℤ → Budget
unfolding valid
new_budget period limit =
    if is_positive limit
    then mem (record {
      period = if valid period then period else month;
      limit = pos_part limit;
      window_end = 0;
      used = 0;
    })
    else unlimited

abbrev pub int64_mod : ℕ
int64_mod = 2 ^ 64

abbrev pub add_int64 : ℕ → ℕ → ℕ
add_int64 a b = (a + b) % int64_mod

-- `a < b` on signed patterns.
abbrev pub lt_int64 : ℕ → ℕ → Bool
lt_int64 a b = ltb ((a + 2 ^ 63) % int64_mod) ((b + 2 ^ 63) % int64_mod)

unfoldable pub roll : ℕ → MemBudget → MemBudget
unfolding next_instant
roll now b =
    if leb b.window_end now
    then record b { window_end = next_instant b.period now; used = 0 }
    else b

abbrev pub report : Bool → MemBudget → BudgetResult
report allowed b = record {
  allowed = allowed;
  used = b.used;
  limit = b.limit;
  resets = b.window_end;
  degraded = false;
}

unfoldable pub add : ℕ → ℕ → MemBudget → MemBudget × BudgetResult
unfolding roll
add now n b =
    let rolled = roll now b in
    let spent = record rolled { used = add_int64 rolled.used n } in
    if lt_int64 rolled.limit (add_int64 rolled.used n)
    then (rolled, report false rolled)
    else (spent, report true spent)

unfoldable pub used_now : ℕ → MemBudget → MemBudget × BudgetResult
unfolding roll
used_now now b =
    let rolled = roll now b in (rolled, report (lt_int64 rolled.used rolled.limit) rolled)

abbrev pub free_result : BudgetResult
free_result = record { allowed = true; used = 0; limit = 0; resets = 0; degraded = false }

-- `Add` and `Used` of the interface.
unfoldable pub add_any : ℕ → ℕ → Budget → Budget × BudgetResult
unfolding add
add_any now n unlimited = (unlimited, free_result)
add_any now n (mem b) = let (b', r) = add now n b in (mem b', r)

unfoldable pub used_any : ℕ → Budget → Budget × BudgetResult
unfolding used_now
used_any now unlimited = (unlimited, free_result)
used_any now (mem b) = let (b', r) = used_now now b in (mem b', r)
