-- ===== src/Audit/Logger.antt =====
-- audit/audit.go: `Logger.Emit` with the scrub of an event. A sink is its name; what each gets is the
-- result. The usage is copied before a key is removed, so the caller's own map stays as it is.
pub mod Scrubbed
use fold.Prelude.{
  ℕ, ℤ, is_positive, pos_part, Bool, ◌&&◌, ◌||◌, List, [], map, take, length, ltb, Option, none,
  some, Str, is_empty, if◌then◌else◌,
}
use fold.Value.{Fields}
use fold.Audit.{Event}
use fold.Gateway.Meta.{erase_all, no_meta_fields}

pub record AuditScrub : Type 0 where
  pub redact_usage_keys : List Str
  pub max_error_length : ℤ

-- The part of a logger that `Emit` reads.
pub record Logger : Type 0 where
  pub sinks : List Str
  pub scrub : Option AuditScrub
  pub instance_id : Str

abbrev pub scrub_usage : List Str → Fields → Fields
scrub_usage keys usage =
    if is_empty keys || no_meta_fields usage then usage else erase_all keys usage

abbrev pub scrub_error : ℤ → Str → Str
scrub_error limit text =
    if is_positive limit && ltb (pos_part limit) (length text)
    then take (pos_part limit) text
    else text

unfoldable pub scrub_event : Option AuditScrub → Event → Event
scrub_event none e = e
scrub_event (some s) e = record e {
  usage = scrub_usage s.redact_usage_keys e.usage;
  error = scrub_error s.max_error_length e.error;
}

abbrev pub stamp_time : ℕ → Option ℕ → Option ℕ
stamp_time now none = some now
stamp_time now (some t) = some t

abbrev pub stamp : Logger → ℕ → Event → Event
stamp l now e = record e {
  time = stamp_time now e.time;
  instance_id = if is_empty e.instance_id then l.instance_id else e.instance_id;
}

-- `none` is the nil logger.
unfoldable pub emit : Option Logger → ℕ → Event → List (Str × Event)
unfolding scrub_event
emit none now e = []
emit (some l) now e = map (λ s. (s, scrub_event l.scrub (stamp l now e))) l.sinks
