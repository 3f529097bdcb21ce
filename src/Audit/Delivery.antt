-- ===== src/Audit/Delivery.antt =====
-- audit/delivery.go and the delivery of one batch in audit/audit.go. The receiver, the encoder, the
-- dead-letter file and the random numbers are parameters. A duration is an int64 of nanoseconds, by
-- its bits.
pub mod Backoff
pub mod Placed
use fold.Prelude.{
  ℕ, zero, suc, ◌+◌, ◌-◌, ◌*◌, ◌/◌, ◌%◌, ◌^◌, ℤ, is_positive, pos_part, Bool, true, false, not,
  ◌&&◌, ◌||◌, List, [], ◌∷◌, ◌++◌, length, take, leb, ltb, ◌==◌, min, Option, none, some, Str,
  is_empty, if◌then◌else◌,
}
use fold.Audit.{Event}

-- `config.AuditRetry`.
pub record AuditRetry : Type 0 where
  pub max_attempts : ℤ
  pub initial_backoff_ms : ℤ
  pub max_backoff_ms : ℤ

pub record RetryPolicy : Type 0 where
  pub max_attempts : ℕ
  pub initial : ℕ
  pub max : ℕ

abbrev pub second : ℕ
second = 10 ^ 9

abbrev pub default_max_attempts : ℕ
default_max_attempts = 4

abbrev pub default_initial : ℕ
default_initial = 500 * 10 ^ 6

abbrev pub default_max_backoff : ℕ
default_max_backoff = 30 * second

-- A product of int64 values.
abbrev pub times : ℕ → ℕ → ℕ
times a b = a * b % 2 ^ 64

abbrev pub is_negative : ℕ → Bool
is_negative d = leb (2 ^ 63) d

-- `a <= b` on int64.
abbrev pub leb_duration : ℕ → ℕ → Bool
leb_duration a b =
    if is_negative a then not (is_negative b) || leb a b else not (is_negative b) && leb a b

abbrev pub millis_or : ℕ → ℤ → ℕ
millis_or other ms = if is_positive ms then times (pos_part ms) (10 ^ 6) else other

abbrev pub clamp_initial : RetryPolicy → RetryPolicy
clamp_initial p = if leb_duration p.initial p.max then p else record p { initial = p.max }

unfoldable pub resolve_retry : Option AuditRetry → RetryPolicy
resolve_retry none = record {
  max_attempts = default_max_attempts;
  initial = default_initial;
  max = default_max_backoff;
}
resolve_retry (some c) = clamp_initial (record {
  max_attempts =
      if is_positive c.max_attempts then pos_part c.max_attempts else default_max_attempts;
  initial = millis_or default_initial c.initial_backoff_ms;
  max = millis_or default_max_backoff c.max_backoff_ms;
})

-- The loop that doubles the delay, with its break at the cap.
unfoldable pub doubled : ℕ → ℕ → ℕ → ℕ
doubled zero cap d = d
doubled (suc n) cap d =
    let twice = times d 2 in
    let rest = doubled n cap twice in if leb_duration cap twice then cap else rest

-- `random` is what `rand.Int64N(half + 1)` gives.
unfoldable pub backoff : RetryPolicy → ℕ → (ℕ → ℕ) → ℕ
unfolding doubled
backoff p attempt random =
    let d = doubled (attempt - 1) p.max p.initial in
    if leb_duration d 0 then 0 else d / 2 + random (d / 2 + 1)

-- What the observer is told.
pub data Report : Type 0 where
  delivered retried dead_lettered dropped : ℕ → Report

-- What a post comes to.
pub data Posted : Type 0 where
  accepted : Posted
  refused : Bool → Posted

-- `post`: the reply of the receiver, if there is one.
pub data Reply : Type 0 where
  no_request : Reply
  unreachable : Reply
  status : ℕ → Reply

unfoldable pub read_status : Reply → Posted
read_status no_request = refused false
read_status unreachable = refused true
read_status (status code) = if ltb code 300 then accepted else refused (code == 429 || leb 500 code)

-- The two ways in which a line of the dead-letter file can fail.
pub data Line : Type 0 where
  unencoded unwritten written : Line

-- The world of one delivery; an attempt is numbered from one. `closing` tells whether `done` is what
-- ends the wait after an attempt; `panics` has, for a delivery that panics, how many reports it has
-- made by then.
pub record Outside : Type 0 where
  pub encode : List Event → Option Str
  pub reply : ℕ → Str → Reply
  pub closing : ℕ → Bool
  pub dead_letter : Option (Event → Line)
  pub panics : Option ℕ

unfoldable pub write_dead : (Event → Line) → List Event → List Report
write_dead line [] = []
write_dead line (e ∷ batch) =
    elim (line e) [ unencoded ↦ dropped 1 | unwritten ↦ dropped 1 | written ↦ dead_lettered 1 ]
    ∷ write_dead line batch

abbrev pub abandon_to : Option (Event → Line) → List Event → List Report
abandon_to none batch = dropped (length batch) ∷ []
abandon_to (some line) batch = write_dead line batch

unfoldable pub abandon : Outside → List Event → List Report
unfolding write_dead
abandon o batch = if is_empty batch then [] else abandon_to o.dead_letter batch

-- The loop over the attempts that are left.
unfoldable pub attempts : Outside → List Event → Str → ℕ → ℕ → List Report
unfolding abandon read_status
attempts o batch body zero attempt = abandon o batch
attempts o batch body (suc left) attempt =
    let again = attempts o batch body left (attempt + 1) in
    elim (read_status (o.reply attempt body)) [
      | accepted ↦ delivered (length batch) ∷ []
      | refused retryable ↦
          if not retryable || left == 0
          then abandon o batch
          else retried (length batch) ∷ (if o.closing attempt then abandon o batch else again)
    ]

unfoldable pub deliver_body : RetryPolicy → Outside → List Event → Option Str → List Report
unfolding attempts
deliver_body p o batch none = dropped (length batch) ∷ []
deliver_body p o batch (some body) = attempts o batch body p.max_attempts 1

unfoldable pub deliver : RetryPolicy → Outside → List Event → List Report
unfolding deliver_body
deliver p o batch = deliver_body p o batch (o.encode batch)

-- How often a delivery calls the panic hook.
abbrev pub panic_of : Option ℕ → ℕ
panic_of none = 0
panic_of (some made) = 1

-- The deferred recovery: the drop of the whole batch comes on top of the reports made so far.
abbrev pub recovered : Option ℕ → List Event → List Report → List Report
recovered none batch rs = rs
recovered (some made) batch rs = take made rs ++ dropped (length batch) ∷ []

unfoldable pub deliver_safe : RetryPolicy → Outside → List Event → List Report
unfolding deliver
deliver_safe p o batch = recovered o.panics batch (deliver p o batch)
