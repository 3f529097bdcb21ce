-- ===== src/State/Limiter.antt =====
-- internal/ratelimit/ratelimit.go: the two-bucket limiter. The clock is an argument, and so is the
-- arithmetic of float64, of which the proofs use what rounding cannot change.
pub mod Bounds
use fold.Prelude.{
  ℕ, zero, suc, ◌+◌, ◌-◌, ◌*◌, ◌^◌, ◌<◌, ◌≤◌, ◌≡◌, ◌&&◌, ℤ, pos, sub_ℕ, is_positive, pos_part, Bool,
  true, false, Option, none, some, leb, if◌then◌else◌,
}

-- `curStart` is `none` for the zero time.
pub record Limiter : Type 0 where
  pub rpm : ℕ
  pub window : ℕ
  pub cur_start : Option ℕ
  pub cur_count : ℕ
  pub prev : ℕ

abbrev pub minute : ℕ
minute = 60_000_000_000

unfoldable pub new_limiter : ℤ → Option Limiter
new_limiter rpm =
    if is_positive rpm
    then some
        (record { rpm = pos_part rpm; window = minute; cur_start = none; cur_count = 0; prev = 0 })
    else none

-- The loop that moves the windows on: the start, and the counts of the current and the previous one.
unfoldable pub advance : ℕ → ℕ → ℕ → ℕ → ℕ → ℕ → ℕ × ℕ × ℕ
advance zero window now start cur prev = (start, cur, prev)
advance (suc fuel) window now start cur prev =
    let shifted = advance fuel window now (start + window) 0 cur in
    if leb (start + window) now
    then if leb (start + 2 * window) now then (now, 0, 0) else shifted
    else (start, cur, prev)

abbrev pub start_or : Option ℕ → ℕ → ℕ
start_or none now = now
start_or (some t) now = t

-- The float64 operations that `Allow` uses.
pub record Float : Type 1 where
  pub F : Type 0
  pub of_int : ℤ → F
  pub add : F → F → F
  pub sub : F → F → F
  pub mul : F → F → F
  pub div : F → F → F
  pub less : F → F → Bool
  pub leq : F → F → Bool

module _ (fl : Float) where
  open fl use {F, of_int, add, sub, mul, div, less, leq}

  abbrev pub in_unit : F → Bool
  in_unit x = leq (of_int (pos 0)) x && leq x (of_int (pos 1))

-- What IEEE 754 says of them: a quotient below one, its complement, a product with a count, and a
-- sum that is exact up to 2 ^ 53.
pub record IsFloat (fl : Float) : Type 0 where
  pub quotient :
      (a b : ℕ) → a < b → in_unit fl (fl.div (fl.of_int (pos a)) (fl.of_int (pos b))) ≡ true
  pub complement :
      (x : fl.F) → in_unit fl x ≡ true → in_unit fl (fl.sub (fl.of_int (pos 1)) x) ≡ true
  pub product :
      (n : ℕ) (x : fl.F)
      → in_unit fl x ≡ true
      → fl.leq (fl.of_int (pos 0)) (fl.mul (fl.of_int (pos n)) x) ≡ true
  pub over :
      (limit n : ℕ) (x : fl.F)
      → limit ≤ n
      → n < 2 ^ 53
      → fl.leq (fl.of_int (pos 0)) x ≡ true
      → fl.less (fl.of_int (pos limit)) (fl.add (fl.add x (fl.of_int (pos n))) (fl.of_int (pos 1)))
        ≡ true

module _ (fl : Float) where
  open fl use {F, of_int, add, sub, mul, div, less}

  -- Whether the count of this window and the share of the last one leave no room.
  unfoldable pub is_full : ℕ → ℕ → ℤ → ℕ → ℕ → Bool
  is_full prev cur elapsed window rpm =
      let share = div (of_int elapsed) (of_int (pos window)) in
      let effective =
        add (mul (of_int (pos prev)) (sub (of_int (pos 1)) share)) (of_int (pos cur)) in
      less (of_int (pos rpm)) (add effective (of_int (pos 1)))

  -- The part of `Allow` behind the loop. The result is the verdict and the time to wait.
  unfoldable pub admit : ℕ → Limiter → ℕ × ℕ × ℕ → Limiter × Bool × ℤ
  admit now l (start, cur, prev) =
      let moved = record l { cur_start = some start; cur_count = cur; prev = prev } in
      if is_full prev cur (sub_ℕ now start) l.window l.rpm
      then (moved, false, sub_ℕ (l.window + start) now)
      else (record moved { cur_count = cur + 1 }, true, ℤ.pos 0)

  -- The loop has two rounds.
  unfoldable pub allow : ℕ → Limiter → Limiter × Bool × ℤ
  unfolding advance admit
  allow now l = admit now l (advance 2 l.window now (start_or l.cur_start now) l.cur_count l.prev)

  unfoldable pub allow_any : ℕ → Option Limiter → Option Limiter × Bool × ℤ
  unfolding allow
  allow_any now none = (none, true, ℤ.pos 0)
  allow_any now (some l) = let (l', ok, wait) = allow now l in (some l', ok, wait)
