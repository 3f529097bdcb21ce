-- ===== src/Gateway/Router.antt =====
-- gateway/router.go: names and their upstreams, and the failures of a fan-out; with the namespace map
-- of gateway/gateway.go and the public names of gateway/upstream.go.
pub mod Names
pub mod Failures
use fold.Prelude.{
  ℕ, ◌+◌, ◌==◌, Bool, true, false, not, ◌&&◌, ◌||◌, leb, any, all, contains, List, [], ◌∷◌, ◌++◌,
  take, drop, length, Option, none, some, Str, Dict, lookup, insert, is_empty, sort_strings,
  if◌then◌else◌,
}
use fold.Policy.Glob.{index}

-- An upstream, as far as names go.
pub record Upstream : Type 0 where
  pub id : Str
  pub namespace : Str

pub record Routes : Type 0 where
  pub upstreams : List Upstream
  pub by_namespace : Dict Upstream
  pub passthrough : Bool

-- The namespaces of a new snapshot, filed in the order of the document.
unfoldable pub file_namespaces : List Upstream → Dict Upstream → Dict Upstream
file_namespaces [] d = d
file_namespaces (u ∷ ups) d =
    file_namespaces ups (if is_empty u.namespace then d else insert u.namespace u d)

unfoldable pub is_passthrough : List Upstream → Bool
is_passthrough (u ∷ []) = is_empty u.namespace
is_passthrough ups = false

unfoldable pub new_routes : List Upstream → Routes
unfolding file_namespaces is_passthrough
new_routes ups = record {
  upstreams = ups;
  by_namespace = file_namespaces ups [];
  passthrough = is_passthrough ups;
}

-- `strings.Cut`.
unfoldable pub cut : Str → Str → Option (Str × Str)
unfolding index
cut s sep = elim (index s sep) [ none ↦ none | some i ↦ some (take i s, drop (i + length sep) s) ]

abbrev pub owner : Dict Upstream → Option (Str × Str) → Option (Upstream × Str)
owner d none = none
owner d (some (ns, bare)) = elim (lookup ns d) [ none ↦ none | some u ↦ some (u, bare) ]

abbrev pub only_upstream : List Upstream → Str → Option (Upstream × Str)
only_upstream [] name = none
only_upstream (u ∷ ups) name = some (u, name)

-- `none` is the error for a name that no upstream owns. Passthrough has one upstream.
unfoldable pub resolve : Routes → Str → Str → Option (Upstream × Str)
unfolding cut
resolve rt sep name =
    if rt.passthrough then only_upstream rt.upstreams name else owner rt.by_namespace (cut name sep)

unfoldable pub public_name : Str → Upstream → Str → Str
public_name sep u bare = if is_empty u.namespace then bare else u.namespace ++ sep ++ bare

-- What one upstream answers in a fan-out: a panic is an error too.
pub data Answer {ℓ} (T : Type ℓ) : Type ℓ where
  value : T → Answer T
  error : Answer T

abbrev pub is_error {ℓ} : {T : Type ℓ} → Answer T → Bool
is_error (value x) = false
is_error error = true

module _ {ℓ} {T : Type ℓ} where
  -- The ids of the upstreams that failed, before the sort.
  unfoldable pub failed_ids : (Upstream → Answer T) → List Upstream → List Str
  failed_ids fn [] = []
  failed_ids fn (u ∷ ups) =
      let rest = failed_ids fn ups in if is_error (fn u) then u.id ∷ rest else rest

  -- The values, in the order of the upstreams; an upstream that failed has none.
  unfoldable pub results_of : (Upstream → Answer T) → List Upstream → List (Option T)
  results_of fn [] = []
  results_of fn (u ∷ ups) = elim (fn u) [ value x ↦ some x | error ↦ none ] ∷ results_of fn ups

  unfoldable pub fan_out : (Upstream → Answer T) → List Upstream → List (Option T) × List Str
  unfolding failed_ids results_of
  fan_out fn ups = (results_of fn ups, sort_strings (failed_ids fn ups))

pub data Partial : Type 0 where
  all_well : Partial
  some_failed : List Str → Partial
  all_down : List Str → Partial

unfoldable pub partial_failure_meta : List Str → ℕ → Partial
partial_failure_meta failed total =
    if is_empty failed
    then all_well
    else if length failed == total
    then all_down failed
    else some_failed failed

-- What config/config.go asks of names: `idRE`, `sepCollisionRE` and the namespaces of `Validate`.
abbrev pub is_alnum : ℕ → Bool
is_alnum c = (leb 97 c && leb c 122) || (leb 48 c && leb c 57)

abbrev pub in_alphabet : ℕ → Bool
in_alphabet c = is_alnum c || c == 45

unfoldable pub matches_id : Str → Bool
matches_id [] = false
matches_id (c ∷ id) = is_alnum c && all in_alphabet id

unfoldable pub is_separator : Str → Bool
is_separator sep = not (is_empty sep) && not (any in_alphabet sep)

unfoldable pub valid_namespaces : List Str → List Upstream → Bool
unfolding matches_id
valid_namespaces seen [] = true
valid_namespaces seen (u ∷ ups) =
    let skipped = valid_namespaces seen ups in
    let noted = valid_namespaces (u.namespace ∷ seen) ups in
    if is_empty u.namespace
    then skipped
    else matches_id u.namespace && not (contains seen u.namespace) && noted

unfoldable pub valid_names : List Upstream → Bool
unfolding valid_namespaces
valid_names ups =
    valid_namespaces [] ups && (leb (length ups) 1 || all (λ u. not (is_empty u.namespace)) ups)
