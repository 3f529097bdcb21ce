-- ===== src/Policy/Engine/Visible.antt =====
-- Lists and calls of policy/policy.go: `DecideCall` against `DecideList`.
use fold.Prelude.{
  Bool, true, not, ◌&&◌, ◌||◌, List, map, any, any_mono, Option, none, some, str, str_eq, ◌≡◌, refl,
  arith,
}
use fold.Config.{PolicyConfig}
use fold.Policy.Clauses.{Evidence, arg_enforce, arg_ignore}
use fold.Policy.Clauses.Grants.{matches_args-enforce_ignore, matches_args-skip_enforce}
use fold.Policy.Engine.{
  CompiledRule, Ask, no_evidence, new_engine, compile_rule, deny_mode, decide_ask, decide_list,
  decide_call,
}
use fold.Policy.Engine.Allowed.{refuses, grants, decide_ask-allowed}

module _ (q : Ask) (ev : Evidence) where
  abbrev shown : Evidence
  shown = record no_evidence { tool = ev.tool }

  grants-shown :
      (r : CompiledRule) → grants q ev arg_enforce r ≡ true → grants q shown arg_ignore r ≡ true
  unfolding grants
  grants-shown r h =
      ground
        (arith, matches_args-enforce_ignore q.upstream_id q.method q.name ev shown refl r.allow)

  refuses-shown :
      (r : CompiledRule) → refuses q shown arg_ignore r ≡ true → refuses q ev arg_enforce r ≡ true
  unfolding refuses deny_mode
  refuses-shown r h =
      ground (arith, matches_args-skip_enforce q.upstream_id q.method q.name ev shown refl r.deny)

  allowed_from :
      (d : Bool) (rules : List CompiledRule)
      → (not (any (refuses q ev arg_enforce) rules) && (any (grants q ev arg_enforce) rules || d))
        ≡ true
      → (not (any (refuses q shown arg_ignore) rules)
          && (any (grants q shown arg_ignore) rules || d))
        ≡ true
  allowed_from d rules h = ground (arith, any_mono rules grants-shown, any_mono rules refuses-shown)

-- If `DecideCall` allows a call, whatever its arguments, then `DecideList` allows the same tool with the
-- same annotations. The caps of `maxItems`, which may still leave the tool out of a list, come after
-- that decision.
pub decide_call-decide_list :
    (cfg : Option PolicyConfig) (q : Ask) (ev : Evidence)
    → (decide_call (new_engine cfg) q ev).allowed ≡ true
    → (decide_list (new_engine cfg) q ev.tool).allowed ≡ true
unfolding decide_call decide_list
decide_call-decide_list none q ev h = unfold new_engine decide_ask in refl
decide_call-decide_list (some cfg) q ev h = rw (decide_ask-allowed q (shown q ev) arg_ignore cfg) (
    allowed_from q ev (str_eq cfg.default_decision (str "allow")) (map compile_rule cfg.rules)
      (rw (decide_ask-allowed q ev arg_enforce cfg) at h))
