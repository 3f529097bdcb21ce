-- ===== src/Policy/Engine/Fast.antt =====
-- The shortcuts of `decide` in policy/policy.go: the flags that `New` raises, and the fast path.
use fold.Prelude.{
  Bool, true, false, not, ◌&&◌, List, [], ◌∷◌, map, any, none, some, Str, str, str_eq, is_empty,
  ◌≡◌, refl, sym, ◌∙◌, arith, Bool-cases, if◌then◌else◌, inl, inr, ap₂,
}
use fold.Config.{PolicyConfig}
use fold.Policy.Subjects.{selects_scopes, subjects_match_why}
use fold.Policy.Subjects.Shortfall.{subjects_match_why-no_scopes}
use fold.Policy.Clauses.{Evidence, ArgMode, clause_has_args, clause_has_kind, matches_args}
use fold.Policy.Clauses.Grants.{matches_args-matches}
use fold.Policy.Engine.{
  CompiledRule, Engine, Decision, Ask, Shortfall, no_shortfall, new_engine, compile_rule, allow_all,
  rule_denies, rule_has, deny_mode, fast_denier, denier, note_shortfall, fast_allow, full_allow,
  refuse_or, decide_ask,
}

by_path {ℓ} :
    {A : Type ℓ} (a k : Bool) {fast full x : A}
    → (a ≡ false → k ≡ false → fast ≡ x)
    → full ≡ x
    → (if not a && not k then fast else full) ≡ x
by_path false false f g = f refl refl
by_path false true f g = g
by_path true k f g = g

if_const {ℓ} : {A : Type ℓ} (b : Bool) (x : A) → (if b then x else x) ≡ x
if_const true x = refl
if_const false x = refl

module _ (q : Ask) (ev : Evidence) (mode : ArgMode) where
  -- The fast path is the general one where no clause has a constraint or a gate.
  fast_denier-denier :
      (rules : List CompiledRule)
      → any (rule_has clause_has_args) rules ≡ false
      → any (rule_has clause_has_kind) rules ≡ false
      → fast_denier q rules ≡ denier q ev mode rules
  unfolding fast_denier denier rule_has
  fast_denier-denier [] h k = refl
  fast_denier-denier (r ∷ rules) h k =
      let same =
        matches_args-matches q.upstream_id q.method q.name ev (deny_mode mode) r.deny (ground arith)
          (ground arith) in
      rw (fast_denier-denier rules (ground arith) (ground arith)) (rw same refl)

  fast_allow-full_allow :
      (e : Engine) (short : Shortfall) (rules : List CompiledRule)
      → any (rule_has clause_has_args) rules ≡ false
      → any (rule_has clause_has_kind) rules ≡ false
      → fast_allow q e mode short rules ≡ full_allow q e ev mode [] short rules
  unfolding fast_allow full_allow rule_has
  fast_allow-full_allow e short [] h k = refl
  fast_allow-full_allow e short (r ∷ rules) h k =
      let (subj_ok, unmet) = subjects_match_why r.subjects q.principal in
      let same =
        matches_args-matches q.upstream_id q.method q.name ev mode r.allow (ground arith)
          (ground arith) in
      let short' =
        if subj_ok then short else note_shortfall q e.has_scopes mode r.allow unmet short in
      let ih = fast_allow-full_allow e short' rules (ground arith) (ground arith) in
      rw (same, if_const, ih) refl

  denier-no_deny :
      (rules : List CompiledRule) → any rule_denies rules ≡ false → denier q ev mode rules ≡ none
  unfolding denier rule_denies
  denier-no_deny [] h = refl
  denier-no_deny (r ∷ rules) h =
      let empty : is_empty r.deny ≡ true = ground arith in
      rw empty (denier-no_deny rules (ground arith))

  no_shortfall_noted :
      (flag : Bool) (r : CompiledRule) (short : Shortfall)
      → selects_scopes r.subjects ≡ false
      → note_shortfall q flag mode r.allow (subjects_match_why r.subjects q.principal).1 short
        ≡ short
  unfolding note_shortfall
  no_shortfall_noted flag r short h =
      rw (subjects_match_why-no_scopes r.subjects q.principal h) (ground arith)

  full_allow-has_scopes :
      (e : Engine) (flag : Bool) (blocked : Str) (short : Shortfall) (rules : List CompiledRule)
      → any (λ r. selects_scopes r.subjects) rules ≡ false
      → full_allow q e ev mode blocked short rules
        ≡ full_allow q (record e { has_scopes = flag }) ev mode blocked short rules
  unfolding full_allow
  full_allow-has_scopes e flag blocked short [] h = refl
  full_allow-has_scopes e flag blocked short (r ∷ rules) h =
      let (subj_ok, unmet) = subjects_match_why r.subjects q.principal in
      let found = matches_args r.allow q.upstream_id q.method q.name ev mode in
      let blocked' = if subj_ok && is_empty blocked then found.1 else blocked in
      let none_noted = λ (b : Bool). no_shortfall_noted b r short (ground arith) in
      let ih = full_allow-has_scopes e flag blocked' short rules (ground arith) in
      rw (none_noted e.has_scopes, none_noted flag, if_const, ih) refl

-- `decide` with every rule checked for a deny first, then for an allow, and nothing skipped.
unfoldable pub plain_decide : Ask → Evidence → ArgMode → Bool → List CompiledRule → Decision
plain_decide q ev mode default rules = refuse_or q (denier q ev mode rules) (
    full_allow q (record allow_all { default_allow = default; has_scopes = true }) ev mode []
      no_shortfall rules)

full_allow-ext :
    (q : Ask) (ev : Evidence) (mode : ArgMode) (e f : Engine) (blocked : Str) (short : Shortfall)
    (rules : List CompiledRule)
    → e.default_allow ≡ f.default_allow
    → e.has_scopes ≡ f.has_scopes
    → full_allow q e ev mode blocked short rules ≡ full_allow q f ev mode blocked short rules
unfolding full_allow
full_allow-ext q ev mode e f blocked short [] h k = rw h
full_allow-ext q ev mode e f blocked short (r ∷ rules) h k =
    let (subj_ok, unmet) = subjects_match_why r.subjects q.principal in
    let found = matches_args r.allow q.upstream_id q.method q.name ev mode in
    let blocked' = if subj_ok && is_empty blocked then found.1 else blocked in
    let short' =
      if subj_ok then short else note_shortfall q f.has_scopes mode r.allow unmet short in
    rw (k, full_allow-ext q ev mode e f blocked' short' rules h k) refl

module _ (q : Ask) (ev : Evidence) (mode : ArgMode) (cfg : PolicyConfig) where
  abbrev pub rules_of : List CompiledRule
  rules_of = map compile_rule cfg.rules

  abbrev pub default_of : Bool
  default_of = str_eq cfg.default_decision (str "allow")

  deny_flag :
      (if any rule_denies rules_of then denier q ev mode rules_of else none)
      ≡ denier q ev mode rules_of
  deny_flag = elim (Bool-cases (any rule_denies rules_of)) [
    | inl e ↦ rw e
    | inr e ↦ rw e (sym (denier-no_deny q ev mode rules_of e))
  ]

  scopes_flag :
      (e : Engine)
      → e.default_allow ≡ default_of
      → e.has_scopes ≡ any (λ r. selects_scopes r.subjects) rules_of
      → full_allow q e ev mode [] no_shortfall rules_of
        ≡ full_allow q
            (record allow_all { default_allow = default_of; has_scopes = true })
            ev
            mode
            []
            no_shortfall
            rules_of
  scopes_flag e h k = elim (Bool-cases e.has_scopes) [
    | inl on ↦ full_allow-ext q ev mode e _ [] no_shortfall rules_of h on
    | inr off ↦
        full_allow-has_scopes q ev mode e true [] no_shortfall rules_of (sym k ∙ off)
        ∙ full_allow-ext q ev mode _ _ [] no_shortfall rules_of h refl
  ]

  full_path :
      refuse_or q
        (if any rule_denies rules_of then denier q ev mode rules_of else none)
        (full_allow q (new_engine (some cfg)) ev mode [] no_shortfall rules_of)
      ≡ plain_decide q ev mode default_of rules_of
  unfolding plain_decide new_engine
  full_path = ap₂ (refuse_or q) deny_flag (scopes_flag (new_engine (some cfg)) refl refl)

  fast_path :
      any (rule_has clause_has_args) rules_of ≡ false
      → any (rule_has clause_has_kind) rules_of ≡ false
      → refuse_or q
          (if any rule_denies rules_of then fast_denier q rules_of else none)
          (fast_allow q (new_engine (some cfg)) mode no_shortfall rules_of)
        ≡ plain_decide q ev mode default_of rules_of
  fast_path h k = rw (fast_denier-denier q ev mode rules_of h k) (
      ap₂ (refuse_or q) refl
        (fast_allow-full_allow q ev mode (new_engine (some cfg)) no_shortfall rules_of h k)
      ∙ full_path)

  -- The flags that `New` raises, the fast matcher and the fast loops change the cost of a decision
  -- and nothing in it: for every document the engine decides as if it had none of them.
  pub decide_ask-plain_decide :
      decide_ask q (new_engine (some cfg)) ev mode ≡ plain_decide q ev mode default_of rules_of
  unfolding decide_ask new_engine
  decide_ask-plain_decide = by_path _ _ fast_path full_path
