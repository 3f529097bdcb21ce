-- ===== src/Tests/State.antt =====
-- The stores of `State` on concrete inputs.
use fold.Prelude.{
  ℕ, ◌+◌, ◌-◌, ◌*◌, ◌/◌, ltb, ◌<◌, ◌≤◌, ℤ, pos, true, false, List, [], ◌∷◌, some, str, str_eq,
  str_le, lookup, insert, erase, leb, ◌≡◌, ◌⊎◌, refl, inl, arith,
}
use native.Mathlib.Nat.{div-lt_iff_lt-mul}
use fold.State.Bounded.{Bounded, new_map, load, store, load_or_store, delete, len}
use fold.State.Bounded.View.{view, store-view}
use fold.State.Bounded.Growth
use fold.State.Bounded.Growth.{store-length, len_unbounded}
use fold.State.Stores.{new_mem_once, try_once}
use fold.State.Stores.SingleUse
use fold.State.Stores.SingleUse.{after_tries-try_once}
use fold.State.Breaker
use fold.State.Breaker.{Breaker, open_, half_open, new_breaker, record_outcome}
use fold.State.Breaker.Trip
use fold.State.Breaker.Trip.{after_all, after_all-IsValid, fail_all, fail_all-new_breaker}
use fold.State.Breaker.Probe
use fold.State.Breaker.Probe.{admitted-le_one, probe_outcome}
use fold.State.Budget.{MemBudget, day, next_instant, roll, add, used_now}
use fold.State.Budget.Window
use fold.State.Budget.Window.{add-lem, admitted-le-limit, add-used_now}
use fold.State.Limiter
use fold.State.Limiter.{Limiter, Float, IsFloat, advance}
use fold.State.Limiter.Bounds
use fold.State.Limiter.Bounds.{advance_ends, allow-Answered}

program : Unit {0}
unfolding try_once str_eq str_le lookup insert erase new_map load store load_or_store delete len
    view new_breaker record_outcome next_instant roll add used_now advance Probe.admitted
    Window.admitted Breaker.allow Limiter.allow
program = tt

-- Two keys in a map of one record a generation: the first is in the previous one.
abbrev two_keys : Bounded ℕ
unfolding program
two_keys = store (str "b") 2 (pos 0) 7 (store (str "a") 1 (pos 5) 7 (new_map 1))

store-view_example : view (store (str "c") 3 (pos 0) 8 two_keys) 8 (str "b") ≡ some 2
unfolding program
store-view_example = store-view (str "c") 3 (pos 0) 8 two_keys (str "b")

len_unbounded_example : (ops : List Growth.Op) × (3 < len (Growth.run ops (new_map 1)))
len_unbounded_example = len_unbounded 3

abbrev fresh : Breaker
fresh = record {
  failure_threshold = 2;
  half_open_after = pos 10;
  state = Breaker.closed;
  failures = 0;
  opened_at = 0;
  probing = false;
}

abbrev tripped : Breaker
tripped = record fresh { state = open_; failures = 2; opened_at = 5 }

abbrev probing : Breaker
probing = record tripped { state = half_open; probing = true }

after_all-IsValid_example :
    Trip.IsValid
      (after_all (Trip.records false 1 ∷ Trip.records false 2 ∷ Trip.allows 20 ∷ []) fresh)
unfolding program
after_all-IsValid_example =
    after_all-IsValid (pos 2) (pos 10)
      (Trip.records false 1 ∷ Trip.records false 2 ∷ Trip.allows 20 ∷ []) refl

admitted-le_one_example : Probe.admitted (6 ∷ 15 ∷ 16 ∷ []) tripped ≤ 1
admitted-le_one_example = admitted-le_one (6 ∷ 15 ∷ 16 ∷ []) tripped (λ e. ground arith)

abbrev daily : MemBudget
daily = record { period = day; limit = 10; window_end = 0; used = 0 }

daily-IsValid : Window.IsValid daily
daily-IsValid = record { in_range = omega arith; within = omega arith }

add-lem_example :
    ((add 5 7 daily).1.allowed ≡ true)
    × ((add 5 7 daily).0 ≡ record daily { used = 7; window_end = 86_400_000_000_000 })
unfolding program
add-lem_example = add-lem 5 7 daily daily-IsValid (omega arith)

admitted-le-limit_example : Window.admitted ((5, 7) ∷ (6, 7) ∷ (9, 3) ∷ []) daily ≤ 10
unfolding program
admitted-le-limit_example =
    let early : Window.Within 5 86_400_000_000_000 10 (5, 7) =
      (omega arith, omega arith, omega arith) in
    let later : Window.Within 5 86_400_000_000_000 10 (6, 7) =
      (omega arith, omega arith, omega arith) in
    let small : Window.Within 5 86_400_000_000_000 10 (9, 3) =
      (omega arith, omega arith, omega arith) in
    admitted-le-limit 5 ((5, 7) ∷ (6, 7) ∷ (9, 3) ∷ []) daily daily-IsValid (inl (omega arith))
      (early, (later, (small, tt)))

advance_ends_example :
    (15 < (advance 2 10 15 0 4 1).0 + 10) × (advance 5 10 15 0 4 1 ≡ advance 2 10 15 0 4 1)
advance_ends_example = advance_ends 3 10 15 0 4 1 (omega arith)

-- The arithmetic on whole numbers, rounded down.
abbrev whole : ℤ → ℕ
whole (pos n) = n
whole (ℤ.negsuc n) = 0

abbrev by_whole : Float
by_whole = record {
  F = ℕ;
  of_int = whole;
  add = λ a b. a + b;
  sub = λ a b. a - b;
  mul = λ a b. a * b;
  div = λ a b. a / b;
  less = ltb;
  leq = leb;
}

by_whole-IsFloat : IsFloat by_whole
by_whole-IsFloat = record {
  quotient = λ a b h.
      let e : a / b ≡ 0 =
        omega (arith, (div-lt_iff_lt-mul {k = b} {x = a} {y = 1} (omega arith)).1 (omega arith)) in
      rw e refl;
  complement = λ x h. ground arith;
  product = λ n x h. ground arith;
  over = λ limit n x h k l. ground arith;
}

abbrev busy : Limiter
busy = record { rpm = 2; window = 60; cur_start = some 3; cur_count = 2; prev = 1 }

allow-Answered_example :
    let (l', ok, wait) = Limiter.allow by_whole 10 busy in
    Bounds.IsValid l' 10 × ((ok ≡ true) ⊎ ((n : ℕ) × (wait ≡ pos n) × (0 < n) × (n ≤ 60)))
allow-Answered_example = allow-Answered by_whole by_whole-IsFloat 10 busy (record {
  window_pos = omega arith;
  in_range = omega arith;
  within = omega arith;
  started = omega arith;
})

after_tries-try_once_example :
    (try_once (str "a") (pos 9) 4 4 (
      SingleUse.after_tries
        (record { key = str "b"; ttl = pos 1; now = 3; later = 3 } ∷ [])
        (try_once (str "a") (pos 5) 1 1 new_mem_once).0)).1
    ≡ false
unfolding program new_mem_once
after_tries-try_once_example =
    after_tries-try_once (str "a") 5 1 1 new_mem_once
      (record { key = str "b"; ttl = pos 1; now = 3; later = 3 } ∷ []) (pos 9) 4 4 (omega arith)
      refl (omega arith) (omega arith, tt) (omega arith)
