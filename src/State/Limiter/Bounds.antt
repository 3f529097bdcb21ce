-- ===== src/State/Limiter/Bounds.antt =====
-- internal/ratelimit/ratelimit.go: the loop ends, and no window admits more than the limit.
use fold.Prelude.{
  ℕ, zero, suc, ◌+◌, ◌-◌, ◌≤◌, ◌<◌, ◌^◌, ℤ, pos, sub_ℕ, Bool, true, ◌≡◌, refl, ◌⊎◌, arith,
  Bool-cases, inl, inr,
}
use fold.State.Limiter.{Limiter, advance, Float, IsFloat, is_full, start_or, admit, allow}

-- What the loop leaves behind.
abbrev Settled : ℕ → ℕ → ℕ × ℕ × ℕ → Type 0
Settled window now (start, cur, prev) = now < start + window

advance-Settled :
    (window now start cur prev : ℕ)
    → 0 < window
    → Settled window now (advance 2 window now start cur prev)
unfolding advance
advance-Settled window now start cur prev h = ground arith

-- Once the clock is inside the current window a round changes nothing.
advance_settled :
    (fuel window now start cur prev : ℕ)
    → now < start + window
    → advance fuel window now start cur prev ≡ (start, cur, prev)
unfolding advance
advance_settled zero window now start cur prev h = refl
advance_settled (suc fuel) window now start cur prev h = ground arith

-- The loop of the source ends after two rounds at most, with the clock inside the current window,
-- whatever the start was; more rounds change nothing.
pub advance_ends :
    (fuel window now start cur prev : ℕ)
    → 0 < window
    → Settled window now (advance 2 window now start cur prev)
      × (advance (suc (suc fuel)) window now start cur prev ≡ advance 2 window now start cur prev)
unfolding advance
advance_ends fuel window now start cur prev h = (
  advance-Settled window now start cur prev h,
  ground (arith, advance_settled fuel window now (start + window + window) 0 0),
)

-- A count within the limit, which is below the range where float64 skips whole numbers.
pub record IsValid (l : Limiter) (now : ℕ) : Type 0 where
  pub window_pos : 0 < l.window
  pub in_range : l.rpm < 2 ^ 53
  pub within : l.cur_count ≤ l.rpm
  pub started : start_or l.cur_start now ≤ now

module _ (fl : Float) (laws : IsFloat fl) where
  -- Rounding cannot make room where the count of this window alone is at the limit.
  full_at_limit :
      (prev cur elapsed window rpm : ℕ)
      → elapsed < window
      → rpm ≤ cur
      → cur < 2 ^ 53
      → is_full fl prev cur (pos elapsed) window rpm ≡ true
  unfolding is_full
  full_at_limit prev cur elapsed window rpm h k l =
      laws.over rpm cur _ k l
        (laws.product prev _ (laws.complement _ (laws.quotient elapsed window h)))

  advance-bounds :
      (rpm window now start cur prev : ℕ)
      → 0 < window
      → start ≤ now
      → cur ≤ rpm
      → let (start', cur', prev') = advance 2 window now start cur prev in
        (start' ≤ now) × (cur' ≤ rpm) × (now < start' + window)
  unfolding advance
  advance-bounds rpm window now start cur prev h k l = ground arith

  -- The limiter stays valid, and the caller is let through or told a wait inside the window.
  abbrev Answered : ℕ → Limiter → Limiter × Bool × ℤ → Type 0
  Answered now l r =
      IsValid r.0 now × ((r.1 ≡ true) ⊎ ((n : ℕ) × (r.2 ≡ pos n) × (0 < n) × (n ≤ l.window)))

  admit-Answered :
      (now : ℕ) (l : Limiter) (start cur prev : ℕ)
      → 0 < l.window
      → start ≤ now
      → cur ≤ l.rpm
      → l.rpm < 2 ^ 53
      → now < start + l.window
      → Answered now l (admit fl now l (start, cur, prev))
  unfolding admit
  admit-Answered now l start cur prev h s k r w =
      let e : sub_ℕ now start ≡ pos (now - start) = ground arith in
      let full = full_at_limit prev cur (now - start) l.window l.rpm (omega arith) in
      elim (Bool-cases (is_full fl prev cur (pos (now - start)) l.window l.rpm)) [
        | inl yes_full ↦
            rw (e, yes_full)
              (
                record { window_pos = h; in_range = r; within = k; started = s },
                inr (l.window + start - now, ground arith, omega arith, omega arith),
              )
        | inr room ↦
            rw (e, room)
              (
                record {
                  window_pos = h;
                  in_range = r;
                  within = ground (arith, full, room);
                  started = s;
                },
                inl refl,
              )
      ]

  -- With a clock that does not go back the limiter keeps the count of a window within its limit, and
  -- whoever is refused is told a wait that is positive and no longer than the window.
  pub allow-Answered :
      (now : ℕ) (l : Limiter)
      → IsValid l now
      → let (l', ok, wait) = allow fl now l in
        IsValid l' now × ((ok ≡ true) ⊎ ((n : ℕ) × (wait ≡ pos n) × (0 < n) × (n ≤ l.window)))
  unfolding allow
  allow-Answered now l v =
      let (start, cur, prev) =
        advance 2 l.window now (start_or l.cur_start now) l.cur_count l.prev in
      let (a, b, w) =
        advance-bounds l.rpm l.window now (start_or l.cur_start now) l.cur_count l.prev v.window_pos
          v.started v.within in
      admit-Answered now l start cur prev v.window_pos a b v.in_range w
