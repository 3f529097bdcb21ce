-- ===== src/Policy/Engine/Allowed.antt =====
-- When the engine of policy/policy.go allows: `decide` against a reading of the rules that has no
-- flag, no fast path and no order.
use fold.Prelude.{
  Bool, true, false, not, ◌&&◌, ◌||◌, List, [], ◌∷◌, map, any, any-perm, Perm, Option, none, some,
  Str, str, str_eq, is_empty, present, ◌≡◌, refl, if◌then◌else◌,
}
use mathlib.Core.List.Perm
use fold.Policy.Engine.Fast.{plain_decide, decide_ask-plain_decide}
use fold.Config.{PolicyConfig, PolicyRule}
use fold.Policy.Subjects.{subjects_match, subjects_match_why}
use fold.Policy.Clauses.{CompiledAllow, Evidence, ArgMode, matches_args_from, matches_args}
use fold.Policy.Engine.{
  CompiledRule, Engine, Decision, Ask, Shortfall, new_engine, compile_rule, deny_mode, denier,
  note_shortfall, full_allow, refuse_or, decide_ask,
}

-- A rule refuses, or grants, an invocation in a mode.
unfoldable pub refuses : Ask → Evidence → ArgMode → CompiledRule → Bool
refuses q ev mode r =
    subjects_match r.subjects q.principal
    && (matches_args r.deny q.upstream_id q.method q.name ev (deny_mode mode)).0

unfoldable pub grants : Ask → Evidence → ArgMode → CompiledRule → Bool
grants q ev mode r =
    subjects_match r.subjects q.principal
    && (matches_args r.allow q.upstream_id q.method q.name ev mode).0

none_matches :
    (cs : List CompiledAllow) (upstream_id method name : Str) (ev : Evidence) (mode : ArgMode)
    → is_empty cs ≡ true
    → (matches_args cs upstream_id method name ev mode).0 ≡ false
unfolding matches_args matches_args_from
none_matches [] upstream_id method name ev mode h = refl
none_matches (c ∷ cs) upstream_id method name ev mode h = cc

-- The two branches of a round of either loop.
deny_round :
    (empty s m : Bool) (id : Str) (next : Option Str) (b : Bool)
    → (empty ≡ true → m ≡ false)
    → present next ≡ b
    → present (if empty || not s then next else if m then some id else next) ≡ (s && m || b)
deny_round true true m id next b h e = rw (h refl) e
deny_round true false m id next b h e = e
deny_round false true true id next b h e = refl
deny_round false true false id next b h e = e
deny_round false false m id next b h e = e

allow_round :
    (t b c : Bool) (d next : Decision)
    → d.allowed ≡ true
    → next.allowed ≡ (b || c)
    → (if t then d else next).allowed ≡ ((t || b) || c)
allow_round true b c d next h e = h
allow_round false b c d next h e = e

module _ (q : Ask) (ev : Evidence) (mode : ArgMode) where
  pub denier-any :
      (rules : List CompiledRule) → present (denier q ev mode rules) ≡ any (refuses q ev mode) rules
  unfolding denier refuses
  denier-any [] = refl
  denier-any (r ∷ rules) =
      deny_round (is_empty r.deny) (subjects_match r.subjects q.principal)
        (matches_args r.deny q.upstream_id q.method q.name ev (deny_mode mode)).0 r.id _ _
        (none_matches r.deny q.upstream_id q.method q.name ev (deny_mode mode)) (denier-any rules)

  pub full_allow-any :
      (e : Engine) (blocked : Str) (short : Shortfall) (rules : List CompiledRule)
      → (full_allow q e ev mode blocked short rules).allowed
        ≡ (any (grants q ev mode) rules || e.default_allow)
  unfolding full_allow grants subjects_match
  full_allow-any e blocked short [] = refl
  full_allow-any e blocked short (r ∷ rules) =
      let (subj_ok, unmet) = subjects_match_why r.subjects q.principal in
      let found = matches_args r.allow q.upstream_id q.method q.name ev mode in
      let blocked' = if subj_ok && is_empty blocked then found.1 else blocked in
      let short' =
        if subj_ok then short else note_shortfall q e.has_scopes mode r.allow unmet short in
      allow_round (subj_ok && found.0) _ _ _ _ refl (full_allow-any e blocked' short' rules)

refuse_or-allowed :
    (q : Ask) (o : Option Str) (d : Decision)
    → (refuse_or q o d).allowed ≡ (not (present o) && d.allowed)
refuse_or-allowed q none d = refl
refuse_or-allowed q (some id) d = refl

-- A configured engine allows an invocation exactly when no rule of the document refuses it, and some
-- rule grants it or the default decision is "allow".
pub decide_ask-allowed :
    (q : Ask) (ev : Evidence) (mode : ArgMode) (cfg : PolicyConfig)
    → (decide_ask q (new_engine (some cfg)) ev mode).allowed ≡ (
        not (any (refuses q ev mode) (map compile_rule cfg.rules))
        && (any (grants q ev mode) (map compile_rule cfg.rules)
            || str_eq cfg.default_decision (str "allow")))
unfolding plain_decide
decide_ask-allowed q ev mode cfg = rw (
  decide_ask-plain_decide q ev mode cfg,
  plain_decide,
  refuse_or-allowed,
  denier-any,
  full_allow-any,
)

-- The order of the rules in the document does not change what is allowed: a deny wins from any place.
pub decide_ask-perm :
    (q : Ask) (ev : Evidence) (mode : ArgMode) (cfg : PolicyConfig) (rules : List PolicyRule)
    → Perm cfg.rules rules
    → (decide_ask q (new_engine (some cfg)) ev mode).allowed
      ≡ (decide_ask q (new_engine (some (record cfg { rules = rules }))) ev mode).allowed
decide_ask-perm q ev mode cfg rules h =
    let moved = Perm.map compile_rule h in
    rw
      (
        decide_ask-allowed q ev mode cfg,
        decide_ask-allowed q ev mode (record cfg { rules = rules }),
      )
      (rw (any-perm (refuses q ev mode) moved, any-perm (grants q ev mode) moved) refl)
