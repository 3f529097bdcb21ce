-- ===== src/Tests/Audit.antt =====
-- Audit delivery on concrete inputs.
use fold.Prelude.{
  ◌≤◌, true, false, pos, none, Str, str_eq, length, ◌++◌, List, [], ◌∷◌, some, str, ◌≡◌, refl,
  arith,
}
use fold.Audit.{Event, no_event}
use fold.Audit.Delivery.{
  RetryPolicy, Outside, status, written, backoff, deliver_safe, retried, dead_lettered, dropped,
}
use fold.Audit.Delivery.Placed.{placed, placed-deliver_safe}
use fold.Audit.Delivery.Backoff.{backoff_bounds}
use fold.Audit.Logger.{AuditScrub, scrub_event}
use fold.Audit.Logger.Scrubbed.{scrub_event_lem}
use fold.Value.{Any, end, field, field_lookup}
use fold.Audit.Sink.{Sink, new_sink, Reach, enter, push, here, next}
use fold.Audit.Sink.Conserved.{IsConserved, Reach-IsConserved}
use fold.Audit.Sink.Late.{late_event}

abbrev retries : RetryPolicy
retries = record { max_attempts = 2; initial = 10; max = 15 }

abbrev call : Event
call = record no_event { method = str "tools/call" }

-- A receiver that is down, with a dead-letter file.
abbrev down : Outside
down = record {
  encode = λ batch. some [];
  reply = λ attempt body. status 503;
  closing = λ attempt. false;
  dead_letter = some (λ e. written);
  panics = none;
}

deliver_down : deliver_safe retries down (call ∷ []) ≡ retried 1 ∷ dead_lettered 1 ∷ []
unfolding deliver_safe
deliver_down = refl

-- The delivery panics once the first event is in the dead-letter file.
abbrev torn : Outside
torn = record down { panics = some 2 }

deliver_torn :
    deliver_safe retries torn (call ∷ call ∷ []) ≡ retried 2 ∷ dead_lettered 1 ∷ dropped 2 ∷ []
unfolding deliver_safe
deliver_torn = refl

placed-deliver_safe_example :
    (2 ≤ placed (deliver_safe retries torn (call ∷ call ∷ [])))
    × (placed (deliver_safe retries torn (call ∷ call ∷ [])) ≤ 4)
placed-deliver_safe_example = placed-deliver_safe retries torn (call ∷ call ∷ [])

backoff_bounds_example : (5 ≤ backoff retries 3 (λ n. 0)) × (backoff retries 3 (λ n. 0) ≤ 15)
backoff_bounds_example = backoff_bounds retries 3 (λ n. 0) (omega arith) (omega arith) (λ n h. h)

abbrev entered : Sink
entered = record new_sink { pending = call ∷ []; emitted = 1 }

abbrev buffered : Sink
buffered = record new_sink { buffer = call ∷ []; emitted = 1 }

Reach-IsConserved_example : IsConserved buffered
Reach-IsConserved_example =
    Reach-IsConserved {p = retries}
      (next (next here (enter new_sink call refl)) (push entered [] [] call refl (omega arith)))

late_event_example :
    (s : Sink) × Reach retries new_sink s
    × (s.reports ≡ [])
    × (s.emitted ≡ 1)
    × ((t : Sink) → Reach retries s t → (more : List Event) × (t.buffer ≡ call ∷ more))
late_event_example = late_event retries call

abbrev scrub : AuditScrub
scrub = record { redact_usage_keys = str "tokens" ∷ []; max_error_length = pos 3 }

abbrev failure : Event
failure = record call { error = str "refused"; usage = field (str "tokens") (Any.bool true) end }

scrub_event_lem_example :
    (field_lookup (str "tokens") (scrub_event (some scrub) failure).usage ≡ none)
    × (true ≡ true → length (scrub_event (some scrub) failure).error ≤ 3)
    × ((rest : Str) × ((scrub_event (some scrub) failure).error ++ rest ≡ str "refused"))
unfolding str_eq
scrub_event_lem_example = scrub_event_lem scrub failure (str "tokens")
