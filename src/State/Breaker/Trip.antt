-- ===== src/State/Breaker/Trip.antt =====
-- internal/breaker/breaker.go: when the circuit opens.
use fold.Prelude.{
  ℕ, ◌+◌, ◌≤◌, ◌<◌, ℤ, pos, Bool, true, false, not, ◌&&◌, List, [], ◌∷◌, length, some, leb,
  pos_part, ◌≡◌, arith, if◌then◌else◌,
}
use fold.State.Breaker.{
  closed, open_, is_closed, is_half_open, Breaker, new_breaker, allow, record_outcome,
}

-- A circuit is closed exactly while its failures in a row are below the threshold, and a probe is
-- out only in the half-open state.
pub record IsValid (b : Breaker) : Type 0 where
  pub threshold_pos : 0 < b.failure_threshold
  pub tripped : leb b.failure_threshold b.failures ≡ not (is_closed b.state)
  pub probe_out : (b.probing && not (is_half_open b.state)) ≡ false

new_breaker-IsValid :
    (threshold half_open_after : ℤ) {b : Breaker}
    → new_breaker threshold half_open_after ≡ some b
    → IsValid b
unfolding new_breaker
new_breaker-IsValid (pos n) half_open_after e = ground arith
new_breaker-IsValid (ℤ.negsuc n) half_open_after e = ground arith

allow-IsValid : (b : Breaker) (now : ℕ) → IsValid b → IsValid (allow b now).0
unfolding allow
allow-IsValid b now v = ground arith

record_outcome-IsValid :
    (success : Bool) (now : ℕ) (b : Breaker) → IsValid b → IsValid (record_outcome success now b)
unfolding record_outcome
record_outcome-IsValid true now b v = ground arith
record_outcome-IsValid false now b v = ground arith

-- A call of a breaker, with its time.
pub data Call : Type 0 where
  allows : ℕ → Call
  records : Bool → ℕ → Call

pub after_all : List Call → Breaker → Breaker
unfolding allow record_outcome
after_all [] b = b
after_all (allows now ∷ calls) b = after_all calls (allow b now).0
after_all (records success now ∷ calls) b = after_all calls (record_outcome success now b)

after_all-IsValid' : (calls : List Call) (b : Breaker) → IsValid b → IsValid (after_all calls b)
unfolding after_all
after_all-IsValid' [] b v = v
after_all-IsValid' (allows now ∷ calls) b v =
    after_all-IsValid' calls (allow b now).0 (allow-IsValid b now v)
after_all-IsValid' (records success now ∷ calls) b v =
    after_all-IsValid' calls (record_outcome success now b) (record_outcome-IsValid success now b v)

-- After any calls of a new breaker, in any order and at any times, the circuit is closed exactly
-- while the failures in a row are below the threshold, and a probe is out only while it is half open.
pub after_all-IsValid :
    (threshold half_open_after : ℤ) (calls : List Call) {b : Breaker}
    → new_breaker threshold half_open_after ≡ some b
    → IsValid (after_all calls b)
after_all-IsValid threshold half_open_after calls {b} e =
    after_all-IsValid' calls b (new_breaker-IsValid threshold half_open_after e)

fail_once :
    (now : ℕ) (b : Breaker)
    → b.state ≡ closed
    → let b' = record_outcome false now b in
      (b'.state ≡ (if leb b.failure_threshold (b.failures + 1) then open_ else closed))
      × (b'.failures ≡ b.failures + 1)
      × (b'.failure_threshold ≡ b.failure_threshold)
unfolding record_outcome
fail_once now b h = (ground arith, ground arith, ground arith)

-- Failures in a row, one for each time of the list.
abbrev pub fail_all : List ℕ → Breaker → Breaker
fail_all [] b = b
fail_all (now ∷ times) b = fail_all times (record_outcome false now b)

fail_all-open :
    (times : List ℕ) (b : Breaker)
    → b.state ≡ open_
    → b.failure_threshold ≤ b.failures
    → (fail_all times b).state ≡ open_
fail_all-open [] b h k = h
fail_all-open (now ∷ times) b h k =
    let b' = record_outcome false now b in
    fail_all-open times b' (unfold record_outcome in ground arith)
      (unfold record_outcome in ground arith)

fail_all-state :
    (times : List ℕ) (b : Breaker)
    → b.state ≡ closed
    → b.failures < b.failure_threshold
    → (fail_all times b).state
      ≡ (if leb b.failure_threshold (b.failures + length times) then open_ else closed)
fail_all-state [] b h k = ground arith
fail_all-state (now ∷ times) b h k =
    let b' = record_outcome false now b in
    let (after, counted, kept) = fail_once now b h in
    ground (arith, after, counted, kept, fail_all-open times b', fail_all-state times b')

-- A new circuit opens at the configured number of failures in a row, and not before.
pub fail_all-new_breaker :
    (threshold half_open_after : ℤ) {b : Breaker} (times : List ℕ)
    → new_breaker threshold half_open_after ≡ some b
    → (fail_all times b).state ≡ (if leb (pos_part threshold) (length times) then open_ else closed)
unfolding new_breaker
fail_all-new_breaker (pos n) half_open_after {b} times e = ground (arith, fail_all-state times b)
fail_all-new_breaker (ℤ.negsuc n) half_open_after times e = ground arith
