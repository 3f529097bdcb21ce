-- ===== src/Policy/Clauses/Grants.antt =====
-- What one clause grants, and the two matchers of policy/policy.go as a search for such a clause.
use fold.Prelude.{
  Bool, true, false, not, ◌&&◌, ◌||◌, List, [], ◌∷◌, any, any_mono, Str, is_empty, ◌≡◌, refl, arith,
  if◌then◌else◌,
}
use fold.Policy.Clauses.{
  CompiledAllow, Evidence, ArgMode, arg_enforce, arg_ignore, arg_skip, is_kind_any, kind_admits,
  names_match, matches, clause_has_args, clause_has_kind, args_verdict, matches_args_from,
  matches_args,
}

-- A clause counts in a mode when its server, method and name fit, its annotation gate admits the
-- tool, and its argument constraints hold as the mode reads them.
unfoldable pub clause_counts : Str → Str → Str → Evidence → ArgMode → CompiledAllow → Bool
clause_counts upstream_id method name ev mode a =
    names_match a upstream_id method name
    && (is_kind_any a.kind || kind_admits a.kind ev.tool)
    && (args_verdict a ev mode).0

pick :
    (n k t v : Bool) (rest : Bool × Str) (b : Bool)
    → rest.0 ≡ b
    → (if n && not (not k && not t) && v then (true, []) else rest).0 ≡ ((n && (k || t) && v) || b)
pick true true t true rest b e = refl
pick true true t false rest b e = e
pick true false true true rest b e = refl
pick true false true false rest b e = e
pick true false false v rest b e = e
pick false k t v rest b e = e

module _ (upstream_id method name : Str) (ev : Evidence) where
  matches_args_from-any :
      (mode : ArgMode) (failed : Str) (cs : List CompiledAllow)
      → (matches_args_from failed cs upstream_id method name ev mode).0
        ≡ any (clause_counts upstream_id method name ev mode) cs
  unfolding matches_args_from clause_counts
  matches_args_from-any mode failed [] = refl
  matches_args_from-any mode failed (a ∷ cs) =
      let tested =
        names_match a upstream_id method name
        && not (not (is_kind_any a.kind) && not (kind_admits a.kind ev.tool)) in
      let noted = if tested && is_empty failed then (args_verdict a ev mode).1 else failed in
      pick (names_match a upstream_id method name) (is_kind_any a.kind) (kind_admits a.kind ev.tool)
        (args_verdict a ev mode).0 _ _ (matches_args_from-any mode noted cs)

  pub matches_args-any :
      (mode : ArgMode) (cs : List CompiledAllow)
      → (matches_args cs upstream_id method name ev mode).0
        ≡ any (clause_counts upstream_id method name ev mode) cs
  unfolding matches_args
  matches_args-any mode cs = matches_args_from-any mode [] cs

-- On clauses with no constraint and no gate the fast matcher is the general one.
module _ (upstream_id method name : Str) (ev : Evidence) (mode : ArgMode) where
  plain_from :
      (cs : List CompiledAllow)
      → any clause_has_args cs ≡ false
      → any clause_has_kind cs ≡ false
      → matches_args_from [] cs upstream_id method name ev mode
        ≡ (matches cs upstream_id method name, [])
  unfolding matches_args_from matches clause_has_args clause_has_kind args_verdict
  plain_from [] h k = refl
  plain_from (a ∷ cs) h k = ground (arith, plain_from cs)

  pub matches_args-matches :
      (cs : List CompiledAllow)
      → any clause_has_args cs ≡ false
      → any clause_has_kind cs ≡ false
      → matches_args cs upstream_id method name ev mode ≡ (matches cs upstream_id method name, [])
  unfolding matches_args
  matches_args-matches = plain_from

-- What an invocation may do, a list shows: dropping the constraints of an allow widens it, and
-- dropping a constrained deny narrows that.
module _ (upstream_id method name : Str) (ev shown : Evidence)
    (same_tool : shown.tool ≡ ev.tool) where
  abbrev counts_under : Evidence → ArgMode → CompiledAllow → Bool
  counts_under = clause_counts upstream_id method name

  enforce_ignore :
      (a : CompiledAllow)
      → counts_under ev arg_enforce a ≡ true
      → counts_under shown arg_ignore a ≡ true
  unfolding clause_counts args_verdict
  enforce_ignore a h = ground (arith, same_tool)

  skip_enforce :
      (a : CompiledAllow)
      → counts_under shown arg_skip a ≡ true
      → counts_under ev arg_enforce a ≡ true
  unfolding clause_counts args_verdict
  skip_enforce a h = ground (arith, same_tool)

  pub matches_args-enforce_ignore :
      (cs : List CompiledAllow)
      → (matches_args cs upstream_id method name ev arg_enforce).0 ≡ true
      → (matches_args cs upstream_id method name shown arg_ignore).0 ≡ true
  matches_args-enforce_ignore cs h =
      rw (matches_args-any upstream_id method name shown arg_ignore cs) (
        any_mono cs enforce_ignore
          (rw (matches_args-any upstream_id method name ev arg_enforce cs) at h))

  pub matches_args-skip_enforce :
      (cs : List CompiledAllow)
      → (matches_args cs upstream_id method name shown arg_skip).0 ≡ true
      → (matches_args cs upstream_id method name ev arg_enforce).0 ≡ true
  matches_args-skip_enforce cs h = rw (matches_args-any upstream_id method name ev arg_enforce cs) (
      any_mono cs skip_enforce
        (rw (matches_args-any upstream_id method name shown arg_skip cs) at h))
