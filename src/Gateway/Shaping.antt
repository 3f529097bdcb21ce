-- ===== src/Gateway/Shaping.antt =====
-- gateway/shaping.go: the filter of one merged list, with the per-rule caps and its counters.
pub mod Caps
use fold.Prelude.{
  ℕ, suc, ◌+◌, ℤ, is_positive, pos_part, Bool, true, false, not, Option, none, some, Str, Dict,
  lookup, insert, [], leb, if◌then◌else◌,
}
use fold.Auth.{Principal}
use fold.Policy.Clauses.{ToolAnnotations}
use fold.Policy.Engine.{Engine, Decision, Ask, decide, decide_list}

-- The MCP annotations of a listed tool; `destructive_hint` is a pointer.
pub record Annotations : Type 0 where
  pub read_only_hint : Bool
  pub destructive_hint : Option Bool

pub record Tool : Type 0 where
  pub name : Str
  pub annotations : Option Annotations

pub record ListFilter : Type 0 where
  pub principal : Option Principal
  pub policy : Engine
  pub method : Str
  pub admitted : Dict ℕ
  pub offered : ℕ
  pub served : ℕ
  pub capped : ℕ

unfoldable pub new_list_filter : Option Principal → Engine → Str → ListFilter
new_list_filter principal policy method = record {
  principal = principal;
  policy = policy;
  method = method;
  admitted = [];
  offered = 0;
  served = 0;
  capped = 0;
}

abbrev pub destructive_or : Option Bool → Bool
destructive_or none = true
destructive_or (some b) = b

unfoldable pub tool_annotations : Option Tool → Option ToolAnnotations
tool_annotations none = none
tool_annotations (some t) = elim t.annotations [
  | none ↦ some (record { read_only = false; destructive = true })
  | some a ↦
      some
        (record { read_only = a.read_only_hint; destructive = destructive_or a.destructive_hint })
]

-- `f.admitted[id]`, which is 0 for an id that is not there.
abbrev pub count_of : Option ℕ → ℕ
count_of none = 0
count_of (some n) = n

-- The count of a rule, and one more item for it.
abbrev pub admit_one : Str → Dict ℕ → Dict ℕ
admit_one id m = insert id (count_of (lookup id m) + 1) m

unfoldable pub filter_decide : ListFilter → Decision → ListFilter × Bool
filter_decide f d =
    let seen = record f { offered = f.offered + 1 } in
    if not d.allowed
    then (seen, false)
    else if not (is_positive d.max_items)
    then (record seen { served = f.served + 1 }, true)
    else if leb (pos_part d.max_items) (count_of (lookup d.rule_id f.admitted))
    then (record seen { capped = f.capped + 1 }, false)
    else (record seen { served = f.served + 1; admitted = admit_one d.rule_id f.admitted }, true)

abbrev pub ask_of : ListFilter → Str → Str → Ask
ask_of f upstream_id name = record {
  principal = f.principal;
  upstream_id = upstream_id;
  method = f.method;
  name = name;
}

unfoldable pub visible : ListFilter → Str → Str → ListFilter × Bool
unfolding filter_decide
visible f upstream_id name = filter_decide f (decide f.policy (ask_of f upstream_id name))

-- `NeedsAnnotations` is the flag that `New` raised.
unfoldable pub visible_tool : ListFilter → Str → Tool → ListFilter × Bool
unfolding visible filter_decide tool_annotations
visible_tool f upstream_id t =
    let plain = visible f upstream_id t.name in
    let gated =
      filter_decide f
        (decide_list f.policy (ask_of f upstream_id t.name) (some (tool_annotations (some t)))) in
    if not f.policy.has_kind then plain else gated
