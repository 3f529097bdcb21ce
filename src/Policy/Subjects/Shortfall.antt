-- ===== src/Policy/Subjects/Shortfall.antt =====
-- What `subjectsMatchWhy` reports: the scopes that alone stood between a principal and a rule.
use fold.Prelude.{
  true, false, not, ◌&&◌, List, [], ◌∷◌, ◌++◌, Option, none, some, Str, str_eq, str_eq_iff,
  contains, is_empty, ◌≡◌, refl, arith, any-append, Bool-cases, inl, inr,
}
use fold.Auth.{Principal}
use fold.Config.{PolicySubjects}
use fold.Policy.Subjects.{
  missing_scopes, identifies, selector_match_why, subjects_match_why, subjects_match,
  selects_scopes,
}

-- A selector that names no scope reports none.
selector-no_scopes :
    (s : PolicySubjects) (p : Principal) (scopes : List Str)
    → s.scopes ≡ scopes
    → is_empty scopes ≡ true
    → (selector_match_why s p).1 ≡ []
unfolding selector_match_why
selector-no_scopes s p [] e h = ground (arith, e)
selector-no_scopes s p (c ∷ cs) e h = cc

pub subjects_match_why-no_scopes :
    (s : Option PolicySubjects) (p : Option Principal)
    → selects_scopes s ≡ false
    → (subjects_match_why s p).1 ≡ []
unfolding subjects_match_why selects_scopes
subjects_match_why-no_scopes none p h = refl
subjects_match_why-no_scopes (some s) none h = refl
subjects_match_why-no_scopes (some s) (some p) h =
    selector-no_scopes s p s.scopes refl (ground arith)

-- Held scopes are never missing, and scopes that are added fill the gap.
keep-IsMissing :
    (required held : List Str) (sc : Str)
    → contains (missing_scopes required held) sc ≡ (contains required sc && not (contains held sc))
unfolding missing_scopes
keep-IsMissing [] held sc = refl
keep-IsMissing (w ∷ required) held sc = elim (Bool-cases (str_eq w sc)) [
  | inl here ↦
      let e = (str_eq_iff w sc).0 here in
      ground (arith, keep-IsMissing required held sc, e, here, str_eq_iff sc sc)
  | inr there ↦ ground (arith, keep-IsMissing required held sc, there)
]

missing_scopes-nil :
    (required held : List Str)
    → ((w : Str) → contains required w ≡ true → contains held w ≡ true)
    → missing_scopes required held ≡ []
unfolding missing_scopes
missing_scopes-nil [] held h = refl
missing_scopes-nil (w ∷ required) held h =
    let first = h w (ground (arith, str_eq_iff w w)) in
    let rest = missing_scopes-nil required held (λ v c. h v (ground arith)) in
    ground (arith, first, rest)

missing_scopes_filled :
    (required held : List Str) → missing_scopes required (held ++ missing_scopes required held) ≡ []
missing_scopes_filled required held = missing_scopes-nil required _ λ w h. ground (
  arith,
  any-append (λ x. str_eq x w) held (missing_scopes required held),
  keep-IsMissing required held w,
)

missing_scopes-empty :
    (required held : List Str)
    → is_empty (missing_scopes required held) ≡ false
    → is_empty required ≡ false
unfolding missing_scopes
missing_scopes-empty [] held h = ground arith
missing_scopes-empty (w ∷ required) held h = refl

unmet-missing :
    (s : PolicySubjects) (p : Principal)
    → is_empty (selector_match_why s p).1 ≡ false
    → (selector_match_why s p).1 ≡ missing_scopes s.scopes p.scopes
unfolding selector_match_why
unmet-missing s p h = ground arith

identifies-scopes :
    (s : PolicySubjects) (p : Principal) (held : List Str)
    → identifies s (record p { scopes = held }) ≡ identifies s p
unfolding identifies
identifies-scopes s p held = refl

-- The selector with every scope held: what remains is what else it asks for.
suffices :
    (s : PolicySubjects) (p : Principal) (held : List Str)
    → is_empty (selector_match_why s p).1 ≡ false
    → is_empty s.scopes ≡ false
    → missing_scopes s.scopes held ≡ []
    → (selector_match_why s (record p { scopes = held })).0 ≡ true
unfolding selector_match_why
suffices s p held h k filled = ground (arith, filled, identifies-scopes s p held)

-- A shortfall that is reported for a rule is exactly what the caller lacks: the rule did not match,
-- none of the scopes is held, and with them added to those held it would have matched.
pub unmet_scopes_suffice :
    (s : PolicySubjects) (p : Principal) (sc : Str)
    → is_empty (subjects_match_why (some s) (some p)).1 ≡ false
    → let unmet = (subjects_match_why (some s) (some p)).1 in
      (subjects_match (some s) (some p) ≡ false)
      × ((contains unmet sc && contains p.scopes sc) ≡ false)
      × (subjects_match (some s) (some (record p { scopes = p.scopes ++ unmet })) ≡ true)
unfolding subjects_match subjects_match_why
unmet_scopes_suffice s p sc h =
    let e = unmet-missing s p h in
    let required = missing_scopes-empty s.scopes p.scopes (ground arith) in
    let filled = missing_scopes_filled s.scopes p.scopes in
    (
      ground arith,
      rw e (ground (arith, keep-IsMissing s.scopes p.scopes sc)),
      rw e (suffices s p _ h required filled),
    )
