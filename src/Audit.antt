-- ===== src/Audit.antt =====
-- audit/audit.go: the outcomes and the audit event. A time is in nanoseconds, and `none` is the zero
-- time.
pub mod Delivery
pub mod Logger
pub mod Sink
use fold.Prelude.{ℕ, List, [], Option, none, Str}
use fold.Value.{Fields, end}

-- `unset` is the empty string.
pub data Outcome : Type 0 where
  unset ok error denied rate_limited unauthenticated upstream_down forbidden : Outcome
  budget_exhausted warned hook_denied : Outcome

pub record Event : Type 0 where
  pub time : Option ℕ
  pub instance_id : Str
  pub principal : Str
  pub issuer : Str
  pub method : Str
  pub name : Str
  pub upstream : Str
  pub direction : Str
  pub tenant : Str
  pub decision : Str
  pub rule_id : Str
  pub missing_scopes : List Str
  pub outcome : Outcome
  pub error : Str
  pub latency_ms : ℕ
  pub upstream_calls : ℕ
  pub items_served : ℕ
  pub items_capped : ℕ
  pub hook_outcome : Str
  pub usage : Fields

-- `Event{}`.
abbrev pub no_event : Event
no_event = record {
  time = none;
  instance_id = [];
  principal = [];
  issuer = [];
  method = [];
  name = [];
  upstream = [];
  direction = [];
  tenant = [];
  decision = [];
  rule_id = [];
  missing_scopes = [];
  outcome = unset;
  error = [];
  latency_ms = 0;
  upstream_calls = 0;
  items_served = 0;
  items_capped = 0;
  hook_outcome = [];
  usage = end;
}
