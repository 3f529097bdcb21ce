-- ===== src/Policy/Subjects.antt =====
-- The subject selector of policy/policy.go: `subjectsMatchWhy`, `subjectsMatch`, `missingScopes`.
pub mod Shortfall
use fold.Prelude.{
  Bool, true, false, not, ◌&&◌, ◌||◌, List, [], Option, none, some, Str, contains, any, keep,
  is_empty, if◌then◌else◌,
}
use fold.Value.{Fields, fields_len}
use fold.Value.Claims.{claims_match}
use fold.Auth.{Principal}
use fold.Config.{PolicySubjects}

unfoldable pub missing_scopes : List Str → List Str → List Str
missing_scopes required held = keep (λ want. not (contains held want)) required

-- `len(s.Claims) > 0`.
abbrev pub has_fields : Fields → Bool
has_fields Fields.end = false
has_fields (Fields.field k v fs) = true

-- The identity half: a named subject, or a group that the principal is in.
unfoldable pub identifies : PolicySubjects → Principal → Bool
identifies s p =
    let by_sub = not (is_empty s.subs) && contains s.subs p.subject in
    if not by_sub && not (is_empty s.groups)
    then any (λ g. contains p.groups g) s.groups
    else by_sub

-- With a selector and a principal at hand: the verdict, and the scopes that alone were missing.
unfoldable pub selector_match_why : PolicySubjects → Principal → Bool × List Str
unfolding identifies missing_scopes
selector_match_why s p =
    let missing = missing_scopes s.scopes p.scopes in
    if not (is_empty s.issuers) && not (contains s.issuers p.issuer)
    then (false, [])
    else if not (claims_match s.claims p.claims)
    then (false, [])
    else if is_empty s.subs && is_empty s.groups
    then if not (is_empty missing)
      then (false, missing)
      else (not (is_empty s.issuers) || has_fields s.claims || not (is_empty s.scopes), [])
    else if not (identifies s p)
    then (false, [])
    else if not (is_empty missing)
    then (false, missing)
    else (true, [])

unfoldable pub subjects_match_why : Option PolicySubjects → Option Principal → Bool × List Str
unfolding selector_match_why
subjects_match_why none p = (true, [])
subjects_match_why (some s) none = (false, [])
subjects_match_why (some s) (some p) = selector_match_why s p

unfoldable pub subjects_match : Option PolicySubjects → Option Principal → Bool
unfolding subjects_match_why
subjects_match s p = (subjects_match_why s p).0

-- `cr.subjects != nil && len(cr.subjects.Scopes) > 0`, one of the flags that `New` raises.
unfoldable pub selects_scopes : Option PolicySubjects → Bool
selects_scopes none = false
selects_scopes (some s) = not (is_empty s.scopes)

-- The matcher that tenancy shares.
unfoldable pub match_subjects : Option PolicySubjects → Option Principal → Bool
unfolding subjects_match
match_subjects s p = subjects_match s p
