-- ===== src/Value.antt =====
-- Go's `any` as JSON decoding fills it (auth/principal.go, policy/policy.go), `reflect.DeepEqual` on
-- such values, and `claimEqual`, `lookupPath` and `claimsMatch` of policy/policy.go.
-- A float64 is its 64-bit pattern; a map[string]any is its entries, with one entry for a key.
pub mod Claims
use fold.Prelude.{
  ℕ, suc, ◌^◌, ◌%◌, Bool, true, false, not, ◌&&◌, ◌||◌, Option, none, some, ltb, ◌==◌, Str, str_eq,
  if◌then◌else◌,
}

mutual
  pub data Any : Type 0 where
    null : Any
    bool : Bool → Any
    float64 : ℕ → Any
    string : Str → Any
    array : Items → Any
    object : Fields → Any

  pub data Items : Type 0 where
    nil : Items
    cons : Any → Items → Items

  pub data Fields : Type 0 where
    end : Fields
    field : Str → Any → Fields → Fields

-- `m[k]` with its two results.
unfoldable pub field_lookup : Str → Fields → Option Any
field_lookup k end = none
field_lookup k (field j v fs) = if str_eq j k then some v else field_lookup k fs

-- `len(m)`.
abbrev pub fields_len : Fields → ℕ
fields_len end = 0
fields_len (field k v fs) = suc (fields_len fs)

-- IEEE 754 equality on bit patterns: a NaN equals nothing, and the two zeros are equal.
abbrev magnitude : ℕ → ℕ
magnitude bits = bits % 2 ^ 63

is_nan : ℕ → Bool
is_nan bits = ltb 0x7ff0000000000000 (magnitude bits)

unfoldable pub float_eq : ℕ → ℕ → Bool
unfolding is_nan
float_eq a b =
    not (is_nan a) && not (is_nan b) && (a == b || (magnitude a == 0 && magnitude b == 0))

unfoldable pub bool_eq : Bool → Bool → Bool
bool_eq true b = b
bool_eq false b = not b

-- `reflect.DeepEqual` on decoded JSON: by type, elementwise on arrays, and on maps of one length
-- by the value of each key.
unfoldable mutual
  pub deep_equal : Any → Any → Bool
  deep_equal null null = true
  deep_equal (bool a) (bool b) = bool_eq a b
  deep_equal (float64 a) (float64 b) = float_eq a b
  deep_equal (string a) (string b) = str_eq a b
  deep_equal (array xs) (array ys) = deep_equal_items xs ys
  deep_equal (object fs) (object gs) = fields_len fs == fields_len gs && deep_equal_fields fs gs
  deep_equal _ _ = false

  pub deep_equal_items : Items → Items → Bool
  deep_equal_items nil nil = true
  deep_equal_items (cons x xs) (cons y ys) = deep_equal x y && deep_equal_items xs ys
  deep_equal_items _ _ = false

  pub deep_equal_fields : Fields → Fields → Bool
  deep_equal_fields end gs = true
  deep_equal_fields (field k v fs) gs =
      elim (field_lookup k gs) [ none ↦ false | some w ↦ deep_equal v w ] && deep_equal_fields fs gs
