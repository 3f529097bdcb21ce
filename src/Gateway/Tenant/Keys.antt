-- ===== src/Gateway/Tenant/Keys.antt =====
-- gateway/tenant.go: the keys of the claim index, and what the indexed selectors ask for.
use fold.Prelude.{
  ℕ, Bool, true, false, ◌&&◌, any, Option, none, some, Str, str_eq, str_eq_iff, contains, ◌≡◌, refl,
  sym, arith,
}
use fold.Value.{Any, Fields, field_lookup, float_eq, bool_eq}
use fold.Value.Claims.{claim_equal, claim_satisfies, claims_match}
use fold.Auth.{Principal}
use fold.Config.{PolicySubjects}
use fold.Policy.Subjects.{
  identifies, selector_match_why, subjects_match_why, subjects_match, match_subjects,
  missing_scopes, has_fields,
}
use fold.Gateway.Tenant.{
  key_equal, is_scalar, scalar_claim, indexable_claim, indexable_groups, indexable_scope, groups_of,
}

float_eq_trans : (a b c : ℕ) → float_eq a b ≡ true → float_eq a c ≡ float_eq b c
unfolding float_eq
float_eq_trans a b c h = ground arith

bool_eq_trans : (a b c : Bool) → bool_eq a b ≡ true → bool_eq a c ≡ bool_eq b c
unfolding bool_eq
bool_eq_trans true true c h = refl
bool_eq_trans true false c h = ground arith
bool_eq_trans false true c h = ground arith
bool_eq_trans false false c h = refl

str_eq_trans : (a b c : Str) → str_eq a b ≡ true → str_eq a c ≡ str_eq b c
str_eq_trans a b c h = ground (arith, str_eq_iff a b)

-- Go's equality on scalars is transitive and symmetric as far as a lookup needs it.
pub key_equal_trans :
    (key val v : Any) → key_equal key val ≡ true → key_equal key v ≡ key_equal val v
unfolding key_equal
key_equal_trans (Any.string a) (Any.string b) v h = by_v v
  where
    by_v : (v : Any) → key_equal (Any.string a) v ≡ key_equal (Any.string b) v
    by_v (Any.string c) = str_eq_trans a b c h
    by_v Any.null = refl
    by_v (Any.bool c) = refl
    by_v (Any.float64 c) = refl
    by_v (Any.array c) = refl
    by_v (Any.object c) = refl
key_equal_trans (Any.float64 a) (Any.float64 b) v h = by_v v
  where
    by_v : (v : Any) → key_equal (Any.float64 a) v ≡ key_equal (Any.float64 b) v
    by_v (Any.float64 c) = float_eq_trans a b c h
    by_v Any.null = refl
    by_v (Any.bool c) = refl
    by_v (Any.string c) = refl
    by_v (Any.array c) = refl
    by_v (Any.object c) = refl
key_equal_trans (Any.bool a) (Any.bool b) v h = by_v v
  where
    by_v : (v : Any) → key_equal (Any.bool a) v ≡ key_equal (Any.bool b) v
    by_v (Any.bool c) = bool_eq_trans a b c h
    by_v Any.null = refl
    by_v (Any.float64 c) = refl
    by_v (Any.string c) = refl
    by_v (Any.array c) = refl
    by_v (Any.object c) = refl
key_equal_trans (Any.string a) val v h = absurd (ground arith)
key_equal_trans (Any.float64 a) val v h = absurd (ground arith)
key_equal_trans (Any.bool a) val v h = absurd (ground arith)
key_equal_trans key val v h = absurd (ground arith)

str_eq_comm : (a b : Str) → str_eq a b ≡ str_eq b a
str_eq_comm a b = ground (arith, str_eq_iff a b, str_eq_iff b a)

float_eq_comm : (a b : ℕ) → float_eq a b ≡ float_eq b a
unfolding float_eq
float_eq_comm a b = ground arith

pub key_equal_comm : (v val : Any) → key_equal v val ≡ key_equal val v
unfolding key_equal bool_eq
key_equal_comm (Any.string a) (Any.string b) = str_eq_comm a b
key_equal_comm (Any.float64 a) (Any.float64 b) = float_eq_comm a b
key_equal_comm (Any.bool true) (Any.bool true) = refl
key_equal_comm (Any.bool true) (Any.bool false) = refl
key_equal_comm (Any.bool false) (Any.bool true) = refl
key_equal_comm (Any.bool false) (Any.bool false) = refl
key_equal_comm v val = ground arith

-- A claim that equals an indexed value is found under it.
pub claim_equal-key_equal :
    (v val : Any) → is_scalar val ≡ true → claim_equal v val ≡ (is_scalar v && key_equal val v)
unfolding claim_equal key_equal bool_eq
claim_equal-key_equal (Any.string a) (Any.string b) h = str_eq_comm a b
claim_equal-key_equal (Any.float64 a) (Any.float64 b) h = float_eq_comm a b
claim_equal-key_equal (Any.bool true) (Any.bool true) h = refl
claim_equal-key_equal (Any.bool true) (Any.bool false) h = refl
claim_equal-key_equal (Any.bool false) (Any.bool true) h = refl
claim_equal-key_equal (Any.bool false) (Any.bool false) h = refl
claim_equal-key_equal v val h = ground arith

scalar_claim-asks :
    (fs claims : Fields) {key : Str} {val : Any}
    → scalar_claim fs ≡ some (key, val)
    → (is_scalar val ≡ true)
      × (has_fields fs ≡ true)
      × (claims_match fs claims ≡ claim_satisfies (field_lookup key claims) val)
unfolding claims_match
scalar_claim-asks Fields.end claims h = absurd (ground arith)
scalar_claim-asks (Fields.field k v Fields.end) claims {key} {val} h =
    let scalar : is_scalar v ≡ true = ground arith in
    let same_key : k ≡ key = ground arith in
    let same_val : v ≡ val = ground arith in
    (rw (sym same_val) scalar, refl, rw (same_key, same_val) (ground arith))
scalar_claim-asks (Fields.field k v (Fields.field j w fs)) claims h = absurd (ground arith)

-- What each indexed selector asks of a principal.
pub indexable_claim-asks :
    (s : Option PolicySubjects) (p : Principal) {key : Str} {val : Any}
    → indexable_claim s ≡ some (key, val)
    → (is_scalar val ≡ true)
      × (match_subjects s (some p) ≡ claim_satisfies (field_lookup key p.claims) val)
unfolding indexable_claim match_subjects subjects_match subjects_match_why selector_match_why
    claims_match missing_scopes
indexable_claim-asks none p h = absurd (ground arith)
indexable_claim-asks (some s) p {key} {val} h =
    let found : scalar_claim s.claims ≡ some (key, val) = ground arith in
    let (scalar, filled, same) = scalar_claim-asks s.claims p.claims found in
    (scalar, ground (arith, filled, same))

pub indexable_groups-asks :
    (s : Option PolicySubjects) (p : Principal)
    → indexable_groups s ≡ true
    → match_subjects s (some p) ≡ any (λ g. contains p.groups g) (groups_of s)
unfolding indexable_groups match_subjects subjects_match subjects_match_why selector_match_why
    claims_match missing_scopes identifies
indexable_groups-asks s p h = ground arith

pub indexable_scope-asks :
    (s : Option PolicySubjects) (p : Principal) {sc : Str}
    → indexable_scope s ≡ some sc
    → match_subjects s (some p) ≡ contains p.scopes sc
unfolding indexable_scope match_subjects subjects_match subjects_match_why selector_match_why
    claims_match missing_scopes identifies
indexable_scope-asks s p h = ground arith
