-- ===== src/Policy/Glob.antt =====
-- The name patterns of policy/policy.go: `glob`, `compileGlob`, `match` and `globAny`.
pub mod Greedy
pub mod Wildcard
use fold.Prelude.{
  ℕ, suc, ◌+◌, ◌-◌, Bool, true, false, ◌&&◌, List, [], ◌∷◌, Option, none, some, Str, str_eq, split,
  has_prefix, length, drop, any, leb, if◌then◌else◌,
}

pub record Glob : Type 0 where
  pub parts : List Str

abbrev pub star : ℕ
star = b'*'

unfoldable pub compile_glob : Str → Glob
compile_glob pattern = record { parts = split star pattern }

abbrev shift : Option ℕ → Option ℕ
shift none = none
shift (some i) = some (suc i)

-- `strings.Index`.
unfoldable pub index : Str → Str → Option ℕ
index [] part = if has_prefix [] part then some 0 else none
index (c ∷ s) part = if has_prefix (c ∷ s) part then some 0 else shift (index s part)

-- `strings.HasSuffix`.
unfoldable pub has_suffix : Str → Str → Bool
has_suffix s suffix =
    leb (length suffix) (length s) && str_eq (drop (length s - length suffix) s) suffix

-- The loop over the parts after the first, and the suffix test behind it.
unfoldable pub match_rest : List Str → Str → Bool
unfolding has_suffix
match_rest [] name = false
match_rest (last ∷ []) name = has_suffix name last
match_rest (part ∷ next ∷ parts) name = elim (index name part) [
  | none ↦ false
  | some idx ↦ match_rest (next ∷ parts) (drop (idx + length part) name)
]

-- `match` by its parts; `Split` never returns an empty list, on which Go would panic.
unfoldable pub match_parts : List Str → Str → Bool
unfolding match_rest
match_parts [] name = false
match_parts (literal ∷ []) name = str_eq literal name
match_parts (first ∷ next ∷ parts) name =
    if has_prefix name first then match_rest (next ∷ parts) (drop (length first) name) else false

unfoldable pub match : Glob → Str → Bool
unfolding match_parts
match g name = match_parts g.parts name

unfoldable pub glob_any : List Glob → Str → Bool
glob_any globs name = any (λ g. match g name) globs

unfoldable pub glob_match : Str → Str → Bool
unfolding compile_glob match
glob_match pattern name = match (compile_glob pattern) name
