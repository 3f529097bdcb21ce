-- ===== src/State/Budget/Window.antt =====
-- internal/state/budget.go: what a budget admits in one window.
use fold.Prelude.{
  ℕ, suc, ◌+◌, ◌≤◌, ◌<◌, ◌^◌, ◌%◌, List, [], ◌∷◌, All, leb, if◌then◌else◌, Bool-cases, ◌≡◌, refl,
  ◌⊎◌, inl, inr, arith,
}
use fold.State.Budget.{MemBudget, next_instant, roll, add, used_now, add_int64, lt_int64}
use fold.State.Budget.Calendar.{next_instant-gt, next_instant-same}

-- The allowance is a positive int64, and no more than it is spent.
pub record IsValid (b : MemBudget) : Type 0 where
  pub in_range : b.limit < 2 ^ 63
  pub within : b.used ≤ b.limit

roll-IsValid : (now : ℕ) (b : MemBudget) → IsValid b → IsValid (roll now b)
unfolding roll
roll-IsValid now b v = ground arith

sum_in_range :
    (limit used n : ℕ)
    → limit < 2 ^ 63
    → used ≤ limit
    → limit + n < 2 ^ 63
    → add_int64 used n ≡ used + n
sum_in_range limit used n h k l = omega arith

-- Below the range of int64 the test of `Add` is the one on numbers.
fits_test :
    (limit used n : ℕ)
    → limit < 2 ^ 63
    → used ≤ limit
    → limit + n < 2 ^ 63
    → lt_int64 limit (add_int64 used n) ≡ leb (suc limit) (used + n)
fits_test limit used n h k l =
    let sum : add_int64 used n ≡ used + n = sum_in_range limit used n h k l in
    let a : (limit + 2 ^ 63) % 2 ^ 64 ≡ limit + 2 ^ 63 = omega arith in
    let b : (used + n + 2 ^ 63) % 2 ^ 64 ≡ used + n + 2 ^ 63 = omega arith in
    rw (sum, a, b) (ground arith)

roll-limit : (now : ℕ) (b : MemBudget) → (roll now b).limit ≡ b.limit
unfolding roll
roll-limit now b = ground arith

-- An `Add` of an amount that does not overflow is admitted exactly when it fits what is left of the
-- window; then it is spent, and otherwise nothing is.
pub add-lem :
    (now n : ℕ) (b : MemBudget)
    → IsValid b
    → b.limit + n < 2 ^ 63
    → let rolled = roll now b in
      ((add now n b).1.allowed ≡ leb (rolled.used + n) b.limit)
      × ((add now n b).0 ≡ (
          if leb (rolled.used + n) b.limit
          then record rolled { used = rolled.used + n }
          else rolled))
unfolding add
add-lem now n b v h =
    let rolled = roll now b in
    let w = roll-IsValid now b v in
    let same = roll-limit now b in
    let sum : add_int64 rolled.used n ≡ rolled.used + n =
      sum_in_range rolled.limit rolled.used n w.in_range w.within (omega arith) in
    let test = fits_test rolled.limit rolled.used n w.in_range w.within (omega arith) in
    elim (Bool-cases (leb (rolled.used + n) b.limit)) [
      | inl fits ↦ (ground (arith, test, same), ground (arith, test, same, sum))
      | inr over ↦ (ground (arith, test, same), ground (arith, test, same, sum))
    ]

-- What a sequence of calls, each a time and an amount, is admitted for in all.
unfoldable pub admitted : List (ℕ × ℕ) → MemBudget → ℕ
unfolding add
admitted [] b = 0
admitted ((now, n) ∷ calls) b =
    let (b', r) = add now n b in (if r.allowed then n else 0) + admitted calls b'

-- The calls fall into the window that begins at or before `from` and ends at `stop`.
abbrev pub Within : ℕ → ℕ → ℕ → ℕ × ℕ → Type 0
Within from stop limit (now, n) = (from ≤ now) × (now < stop) × (limit + n < 2 ^ 63)

roll_inside : (now : ℕ) (b : MemBudget) → now < b.window_end → roll now b ≡ b
unfolding roll
roll_inside now b h = ground arith

roll_twice : (now : ℕ) (b : MemBudget) → roll now (roll now b) ≡ roll now b
unfolding roll
roll_twice now b = ground (arith, next_instant-gt b.period now)

add-roll : (now n : ℕ) (b : MemBudget) → add now n (roll now b) ≡ add now n b
unfolding add
add-roll now n b = rw (roll_twice now b) refl

-- One call inside the current window.
add_inside :
    (now n : ℕ) (b : MemBudget)
    → IsValid b
    → b.limit + n < 2 ^ 63
    → now < b.window_end
    → let (b', r) = add now n b in
      ((if r.allowed then n else 0) + b.used ≡ b'.used)
      × (b'.used ≤ b'.limit)
      × (b'.limit ≡ b.limit)
      × (b'.window_end ≡ b.window_end)
add_inside now n b v h k =
    let (allowed, state) = add-lem now n b v h in
    let inside = roll_inside now b k in ground (arith, allowed, state, inside)

admitted_inside :
    (from stop limit : ℕ) (calls : List (ℕ × ℕ)) (b : MemBudget)
    → IsValid b
    → b.window_end ≡ stop
    → b.limit ≡ limit
    → All (Within from stop limit) calls
    → admitted calls b + b.used ≤ limit
unfolding admitted
admitted_inside from stop limit [] b v e l h = omega (arith, v.within)
admitted_inside from stop limit ((now, n) ∷ calls) b v e l h =
    let (spent, within, same_limit, same_end) = add_inside now n b v (omega arith) (omega arith) in
    let v' : IsValid (add now n b).0 = record {
      in_range = omega (arith, v.in_range);
      within = within;
    } in
    omega (
      arith,
      spent,
      admitted_inside from stop limit calls (add now n b).0 v' (omega arith) (omega arith) h.1,
    )

admitted-roll :
    (now n : ℕ) (calls : List (ℕ × ℕ)) (b : MemBudget)
    → admitted ((now, n) ∷ calls) (roll now b) ≡ admitted ((now, n) ∷ calls) b
unfolding admitted
admitted-roll now n calls b = rw (add-roll now n b) refl

roll_to :
    (from now : ℕ) (b : MemBudget)
    → (b.window_end ≤ from) ⊎ (b.window_end ≡ next_instant b.period from)
    → from ≤ now
    → now < next_instant b.period from
    → (roll now b).window_end ≡ next_instant b.period from
unfolding roll
roll_to from now b h k l = ground (arith, next_instant-same b.period from now)

-- Whatever is asked of a budget inside one calendar window, and however often, what it admits is no
-- more than its allowance: when the window is the one it is in, or a later one.
pub admitted-le-limit :
    (from : ℕ) (calls : List (ℕ × ℕ)) (b : MemBudget)
    → IsValid b
    → (b.window_end ≤ from) ⊎ (b.window_end ≡ next_instant b.period from)
    → All (Within from (next_instant b.period from) b.limit) calls
    → admitted calls b ≤ b.limit
unfolding admitted
admitted-le-limit from [] b v s h = omega arith
admitted-le-limit from ((now, n) ∷ calls) b v s h = omega (
  arith,
  admitted-roll now n calls b,
  admitted_inside from (next_instant b.period from) b.limit ((now, n) ∷ calls) (roll now b)
      (roll-IsValid now b v) (roll_to from now b s h.0.0 h.0.1) (roll-limit now b) h,
)

roll_later : (now later : ℕ) (b : MemBudget) → now ≤ later → roll later (roll now b) ≡ roll later b
unfolding roll
roll_later now later b h =
    ground (arith, next_instant-same b.period now later, next_instant-gt b.period now)

-- Reading a budget consumes nothing and hides nothing: a later `Add` comes out as if nobody had read.
pub add-used_now :
    (now later n : ℕ) (b : MemBudget) → now ≤ later → add later n (used_now now b).0 ≡ add later n b
unfolding add used_now
add-used_now now later n b h = rw (roll_later now later b h) refl
