-- ===== src/Audit/Logger/Scrubbed.antt =====
-- audit/audit.go: what a scrub leaves of an event.
use fold.Prelude.{
  ℤ, ◌≤◌, is_positive, pos_part, true, ◌++◌, List, [], ◌∷◌, drop, length, length-take,
  take-append-drop, ltb, none, some, Str, contains, if◌then◌else◌, ◌≡◌, refl, arith, append-nil,
  Bool-cases, inl, inr, ◌&&◌,
}
use fold.Value.{Fields, end, field, field_lookup}
use fold.Audit.{Event}
use fold.Audit.Logger.{AuditScrub, scrub_usage, scrub_error, scrub_event}
use fold.Gateway.Meta.Stripped.{field_lookup-erase_all}

field_lookup-scrub_usage :
    (keys : List Str) (k : Str) (fs : Fields)
    → field_lookup k (scrub_usage keys fs) ≡ (if contains keys k then none else field_lookup k fs)
field_lookup-scrub_usage [] k fs = refl
field_lookup-scrub_usage (j ∷ keys) k end = unfold field_lookup in ground arith
field_lookup-scrub_usage (j ∷ keys) k (field i v fs) =
    field_lookup-erase_all (j ∷ keys) k (field i v fs)

scrub_error_lem :
    (limit : ℤ) (text : Str)
    → (is_positive limit ≡ true → length (scrub_error limit text) ≤ pos_part limit)
      × ((rest : Str) × (scrub_error limit text ++ rest ≡ text))
scrub_error_lem limit text =
    elim (Bool-cases (is_positive limit && ltb (pos_part limit) (length text))) [
      | inl e ↦ rw e (
        λ p. ground (arith, length-take (pos_part limit) text),
        (drop (pos_part limit) text, take-append-drop (pos_part limit) text),
      )
      | inr e ↦ rw e (λ p. ground arith, ([], append-nil text))
    ]

-- What a sink gets of a scrubbed event: under a redacted key of the usage nothing, and under every
-- other key what the upstream reported; and of the error text a prefix, no longer than the cap where
-- the limit is positive.
pub scrub_event_lem :
    (s : AuditScrub) (e : Event) (k : Str)
    → (field_lookup k (scrub_event (some s) e).usage
        ≡ (if contains s.redact_usage_keys k then none else field_lookup k e.usage))
      × (is_positive s.max_error_length ≡ true
          → length (scrub_event (some s) e).error ≤ pos_part s.max_error_length)
      × ((rest : Str) × ((scrub_event (some s) e).error ++ rest ≡ e.error))
unfolding scrub_event
scrub_event_lem s e k =
    let (short, prefix) = scrub_error_lem s.max_error_length e.error in
    (field_lookup-scrub_usage s.redact_usage_keys k e.usage, short, prefix)
