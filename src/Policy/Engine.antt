-- ===== src/Policy/Engine.antt =====
-- The engine of policy/policy.go: `New`, `decide` on its fast and its general path, and the public
-- decisions over it.
pub mod Fast
pub mod Allowed
pub mod Visible
pub mod Scopes
use fold.Prelude.{
  ℤ, pos, Bool, true, false, not, ◌&&◌, ◌||◌, List, [], ◌∷◌, ◌++◌, map, any, Option, none, some,
  Str, str, str_eq, Dict, lookup, insert, is_empty, present, if◌then◌else◌,
}
use fold.Auth.{Principal}
use fold.Config.{PolicySubjects, PolicyAllow, PolicyRule, PolicyConfig}
use fold.Policy.Subjects.{selects_scopes, subjects_match, subjects_match_why}
use fold.Policy.Clauses.{
  ToolAnnotations, CompiledAllow, Evidence, ArgMode, arg_enforce, arg_ignore, arg_skip,
  compile_clauses, clause_has_args, clause_has_kind, matches, matches_args,
}

pub record CompiledRule : Type 0 where
  pub id : Str
  pub subjects : Option PolicySubjects
  pub allow : List CompiledAllow
  pub deny : List CompiledAllow
  pub max_items : ℤ

pub record Engine : Type 0 where
  pub default_allow : Bool
  pub rules : List CompiledRule
  pub enabled : Bool
  pub has_deny : Bool
  pub has_args : Bool
  pub has_kind : Bool
  pub has_scopes : Bool
  pub server_initiated_allow : Bool

pub record Decision : Type 0 where
  pub allowed : Bool
  pub rule_id : Str
  pub max_items : ℤ
  pub failed_arg : Str
  pub missing_scopes : List Str

abbrev pub verdict : Bool → Decision
verdict b = record {
  allowed = b;
  rule_id = [];
  max_items = pos 0;
  failed_arg = [];
  missing_scopes = [];
}

unfoldable pub compile_rule : PolicyRule → CompiledRule
compile_rule r = record {
  id = r.id;
  subjects = r.subjects;
  allow = compile_clauses r.allow;
  deny = compile_clauses r.deny;
  max_items = r.max_items;
}

-- The flags that `New` raises while it compiles the rules.
unfoldable pub rule_denies : CompiledRule → Bool
rule_denies r = not (is_empty r.deny)

unfoldable pub rule_has : (CompiledAllow → Bool) → CompiledRule → Bool
rule_has p r = any p r.allow || any p r.deny

unfoldable pub allow_all : Engine
allow_all = record {
  default_allow = true;
  rules = [];
  enabled = false;
  has_deny = false;
  has_args = false;
  has_kind = false;
  has_scopes = false;
  server_initiated_allow = false;
}

unfoldable pub new_engine : Option PolicyConfig → Engine
unfolding allow_all compile_rule rule_denies selects_scopes clause_has_args clause_has_kind rule_has
new_engine none = allow_all
new_engine (some cfg) =
    let rules = map compile_rule cfg.rules in
    record {
      default_allow = str_eq cfg.default_decision (str "allow");
      rules = rules;
      enabled = true;
      has_deny = any rule_denies rules;
      has_args = any (rule_has clause_has_args) rules;
      has_kind = any (rule_has clause_has_kind) rules;
      has_scopes = any (λ r. selects_scopes r.subjects) rules;
      server_initiated_allow = not (str_eq cfg.server_initiated_decision (str "deny"));
    }

pub record Shortfall : Type 0 where
  pub seen : Dict Bool
  pub out : List Str

abbrev pub no_shortfall : Shortfall
no_shortfall = record { seen = []; out = [] }

abbrev pub is_seen : Option Bool → Bool
is_seen (some b) = b
is_seen none = false

unfoldable pub add_scope : Shortfall → Str → Shortfall
add_scope s sc =
    if is_seen (lookup sc s.seen)
    then s
    else record { seen = insert sc true s.seen; out = s.out ++ sc ∷ [] }

unfoldable pub add_scopes : Shortfall → List Str → Shortfall
unfolding add_scope
add_scopes s [] = s
add_scopes s (sc ∷ scopes) = add_scopes (add_scope s sc) scopes

unfoldable pub deny_mode : ArgMode → ArgMode
deny_mode arg_ignore = arg_skip
deny_mode arg_enforce = arg_enforce
deny_mode arg_skip = arg_skip

abbrev pub is_enforce : ArgMode → Bool
is_enforce arg_enforce = true
is_enforce arg_ignore = false
is_enforce arg_skip = false

-- One invocation: the caller, and what it asks for.
pub record Ask : Type 0 where
  pub principal : Option Principal
  pub upstream_id : Str
  pub method : Str
  pub name : Str

module _ (q : Ask) where
  open q use {principal, upstream_id, method, name}

  -- The loop over the denies on the fast path: the id of the first rule that denies.
  unfoldable pub fast_denier : List CompiledRule → Option Str
  unfolding subjects_match
  fast_denier [] = none
  fast_denier (r ∷ rules) =
      let next = fast_denier rules in
      if is_empty r.deny || not (subjects_match r.subjects principal)
      then next
      else if matches r.deny upstream_id method name
      then some r.id
      else next

  unfoldable pub denier : Evidence → ArgMode → List CompiledRule → Option Str
  unfolding subjects_match deny_mode
  denier ev mode [] = none
  denier ev mode (r ∷ rules) =
      let next = denier ev mode rules in
      if is_empty r.deny || not (subjects_match r.subjects principal)
      then next
      else if (matches_args r.deny upstream_id method name ev (deny_mode mode)).0
      then some r.id
      else next

  -- What a rule whose subjects do not match adds to the shortfall.
  unfoldable pub note_shortfall :
      Bool → ArgMode → List CompiledAllow → List Str → Shortfall → Shortfall
  unfolding add_scopes
  note_shortfall has_scopes mode allow unmet short =
      if has_scopes
        && is_enforce mode
        && not (is_empty unmet)
        && matches allow upstream_id method name
      then add_scopes short unmet
      else short

  -- The loop over the allows on the fast path.
  unfoldable pub fast_allow : Engine → ArgMode → Shortfall → List CompiledRule → Decision
  unfolding note_shortfall
  fast_allow e mode short [] = record (verdict e.default_allow) { missing_scopes = short.out }
  fast_allow e mode short (r ∷ rules) =
      let (subj_ok, unmet) = subjects_match_why r.subjects principal in
      let next =
        fast_allow e mode
          (if subj_ok then short else note_shortfall e.has_scopes mode r.allow unmet short) rules in
      if subj_ok && matches r.allow upstream_id method name
      then record (verdict true) { rule_id = r.id; max_items = r.max_items }
      else next

  unfoldable pub full_allow :
      Engine → Evidence → ArgMode → Str → Shortfall → List CompiledRule → Decision
  unfolding note_shortfall
  full_allow e ev mode blocked_by short [] = record (verdict e.default_allow) {
    failed_arg = blocked_by;
    missing_scopes = short.out;
  }
  full_allow e ev mode blocked_by short (r ∷ rules) =
      let (subj_ok, unmet) = subjects_match_why r.subjects principal in
      let found = matches_args r.allow upstream_id method name ev mode in
      let blocked = if subj_ok && is_empty blocked_by then found.1 else blocked_by in
      let next =
        full_allow e ev mode blocked
          (if subj_ok then short else note_shortfall e.has_scopes mode r.allow unmet short) rules in
      if subj_ok && found.0
      then record (verdict true) { rule_id = r.id; max_items = r.max_items }
      else next

  abbrev pub refuse_or : Option Str → Decision → Decision
  refuse_or (some id) other = record (verdict false) { rule_id = id }
  refuse_or none other = other

  unfoldable pub decide_ask : Engine → Evidence → ArgMode → Decision
  unfolding fast_denier denier fast_allow full_allow
  decide_ask e ev mode =
      let fast =
        refuse_or (if e.has_deny then fast_denier e.rules else none)
          (fast_allow e mode no_shortfall e.rules) in
      let full =
        refuse_or (if e.has_deny then denier ev mode e.rules else none)
          (full_allow e ev mode [] no_shortfall e.rules) in
      if not e.enabled
      then verdict true
      else if not e.has_args && not e.has_kind
      then fast
      else full

abbrev pub no_evidence : Evidence
no_evidence = record { args = none; tool = none }

unfoldable pub decide : Engine → Ask → Decision
unfolding decide_ask
decide e q = decide_ask q e no_evidence arg_ignore

unfoldable pub decide_list : Engine → Ask → Option (Option ToolAnnotations) → Decision
unfolding decide_ask
decide_list e q tool = decide_ask q e (record no_evidence { tool = tool }) arg_ignore

unfoldable pub decide_call : Engine → Ask → Evidence → Decision
unfolding decide_ask
decide_call e q ev = decide_ask q e ev arg_enforce

-- The reverse direction: a request that an upstream makes of the caller's client.
unfoldable pub decide_server_initiated : Engine → Option Principal → Str → Str → Decision
unfolding decide
decide_server_initiated e p upstream_id method =
    let asked =
      decide e (record { principal = p; upstream_id = upstream_id; method = method; name = [] }) in
    if not e.enabled || e.server_initiated_allow then verdict true else asked

unfoldable pub visible : Engine → Ask → Bool
unfolding decide
visible e q = (decide e q).allowed
