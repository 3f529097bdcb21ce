-- ===== src/State/Breaker.antt =====
-- internal/breaker/breaker.go: the circuit breaker of one upstream. A nil breaker is `none`; the
-- clock is an argument of each call.
pub mod Trip
pub mod Probe
use fold.Prelude.{
  ℕ, ◌+◌, ℤ, pos, sub_ℕ, leb_int, is_positive, pos_part, Bool, true, false, ◌||◌, Option, none,
  some, leb, if◌then◌else◌,
}

pub data Disposition : Type 0 where
  closed open_ half_open : Disposition

pub record Breaker : Type 0 where
  pub failure_threshold : ℕ
  pub half_open_after : ℤ
  pub state : Disposition
  pub failures : ℕ
  pub opened_at : ℕ
  pub probing : Bool

unfoldable pub new_breaker : ℤ → ℤ → Option Breaker
new_breaker threshold half_open_after =
    if is_positive threshold
    then some (record {
      failure_threshold = pos_part threshold;
      half_open_after = half_open_after;
      state = closed;
      failures = 0;
      opened_at = 0;
      probing = false;
    })
    else none

-- `now.Sub(openedAt) >= halfOpenAfter`.
abbrev pub cooled : Breaker → ℕ → Bool
cooled b now = leb_int b.half_open_after (sub_ℕ now b.opened_at)

unfoldable pub allow_in : Disposition → Breaker → ℕ → Breaker × Bool
allow_in closed b now = (b, true)
allow_in open_ b now =
    if cooled b now then (record b { state = half_open; probing = true }, true) else (b, false)
allow_in half_open b now = if b.probing then (b, false) else (record b { probing = true }, true)

unfoldable pub allow : Breaker → ℕ → Breaker × Bool
unfolding allow_in
allow b now = allow_in b.state b now

abbrev pub is_closed : Disposition → Bool
is_closed closed = true
is_closed open_ = false
is_closed half_open = false

abbrev pub is_half_open : Disposition → Bool
is_half_open half_open = true
is_half_open closed = false
is_half_open open_ = false

unfoldable pub record_outcome : Bool → ℕ → Breaker → Breaker
record_outcome true now b = record b { state = closed; failures = 0; probing = false }
record_outcome false now b =
    let failures = b.failures + 1 in
    if is_half_open b.state || leb b.failure_threshold failures
    then record b { probing = false; failures = failures; state = open_; opened_at = now }
    else record b { probing = false; failures = failures }

-- `Allow` and `Record` on a breaker that may be nil.
unfoldable pub allow_any : Option Breaker → ℕ → Option Breaker × Bool
unfolding allow
allow_any none now = (none, true)
allow_any (some b) now = let (b', ok) = allow b now in (some b', ok)

unfoldable pub record_any : Bool → ℕ → Option Breaker → Option Breaker
unfolding record_outcome
record_any success now none = none
record_any success now (some b) = some (record_outcome success now b)

abbrev pub reported : Disposition → Bool → Disposition
reported open_ due = if due then half_open else open_
reported closed due = closed
reported half_open due = half_open

-- `State`.
unfoldable pub current_state : Option Breaker → ℕ → Disposition
current_state none now = closed
current_state (some b) now = reported b.state (cooled b now)
