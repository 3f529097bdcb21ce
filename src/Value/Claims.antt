-- ===== src/Value/Claims.antt =====
-- `claimEqual`, `claimsMatch` and `lookupPath` of policy/policy.go.
use fold.Prelude.{
  Bool, true, false, ◌&&◌, ◌||◌, Option, none, some, List, [], ◌∷◌, ◌≡◌, refl, Str, str_eq,
}
use fold.Value.{
  Any, bool, float64, string, array, object, Items, nil, cons, Fields, end, field, field_lookup,
  float_eq, bool_eq, deep_equal,
}

-- The switch is on the type of `want`; a failed type assertion on `got` is false.
unfoldable pub claim_equal : Any → Any → Bool
claim_equal (string g) (string w) = str_eq g w
claim_equal got (string w) = false
claim_equal (float64 g) (float64 w) = float_eq g w
claim_equal got (float64 w) = false
claim_equal (bool g) (bool w) = bool_eq g w
claim_equal got (bool w) = false
claim_equal got want = deep_equal got want

-- `slices.ContainsFunc(arr, func(v any) bool { return claimEqual(v, want) })`.
unfoldable pub items_contain : Items → Any → Bool
items_contain nil want = false
items_contain (cons v vs) want = claim_equal v want || items_contain vs want

-- One required entry against the claim found under its key.
unfoldable pub claim_satisfies : Option Any → Any → Bool
claim_satisfies none want = false
claim_satisfies (some (array vs)) want = items_contain vs want
claim_satisfies (some got) want = claim_equal got want

unfoldable pub claims_match : Fields → Fields → Bool
claims_match end claims = true
claims_match (field key want required) claims =
    claim_satisfies (field_lookup key claims) want && claims_match required claims

-- The walk of `lookupPath` from the value `cur`.
unfoldable pub walk_path : Any → List Str → Option Any
walk_path cur [] = some cur
walk_path (object fs) (seg ∷ path) = elim (field_lookup seg fs) [
  | none ↦ none
  | some v ↦ walk_path v path
]
walk_path cur (seg ∷ path) = none

unfoldable pub lookup_path : Fields → List Str → Option Any
unfolding walk_path
lookup_path m path = walk_path (object m) path

-- The type switch of `claimEqual` changes its cost and not its meaning: on every pair of decoded
-- JSON values it is `reflect.DeepEqual`.
pub claim_equal-deep_equal : (got want : Any) → claim_equal got want ≡ deep_equal got want
unfolding claim_equal deep_equal
claim_equal-deep_equal (string g) (string w) = refl
claim_equal-deep_equal (float64 g) (float64 w) = refl
claim_equal-deep_equal (bool g) (bool w) = refl
claim_equal-deep_equal _ _ = refl
