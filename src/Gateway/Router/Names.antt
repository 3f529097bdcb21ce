-- ===== src/Gateway/Router/Names.antt =====
-- gateway/router.go: `public` and `resolve` are inverse, for namespaces and separators that
-- config/config.go lets through.
use fold.Prelude.{
  suc, ◌+◌, true, false, not, List, [], ◌∷◌, ◌++◌, all, take, drop, length, length-append, some,
  Str, str_eq_iff, contains, Dict, lookup, insert, lookup-insert, is_empty, has_prefix, ◌≡◌, refl,
  arith, ap, ◌∙◌, inl, inr, Bool-cases,
}
use fold.Policy.Glob.{index}
use fold.Gateway.Router.{
  Upstream, new_routes, cut, resolve, public_name, file_namespaces, is_passthrough, in_alphabet,
  matches_id, is_separator, valid_namespaces, valid_names, owner,
}

pub has_prefix-append : (sep bare : Str) → has_prefix (sep ++ bare) sep ≡ true
unfolding has_prefix
has_prefix-append [] bare = refl
has_prefix-append (c ∷ sep) bare = ground (arith, has_prefix-append sep bare)

-- The separator first stands behind the namespace.
index_behind :
    (ns sep bare : Str)
    → all in_alphabet ns ≡ true
    → is_separator sep ≡ true
    → index (ns ++ sep ++ bare) sep ≡ some (length ns)
unfolding index has_prefix is_separator
index_behind ns [] bare h k = absurd (ground arith)
index_behind [] (d ∷ sep) bare h k = ground (arith, has_prefix-append sep bare)
index_behind (c ∷ ns) (d ∷ sep) bare h k = ground (arith, index_behind ns (d ∷ sep) bare)

take_front : (ns sep rest : Str) → take (length ns) (ns ++ sep ++ rest) ≡ ns
take_front [] sep rest = refl
take_front (c ∷ ns) sep rest = ap (◌∷◌ c) (take_front ns sep rest)

pub drop_prefix : (sep rest : Str) → drop (length sep) (sep ++ rest) ≡ rest
drop_prefix [] rest = refl
drop_prefix (c ∷ sep) rest = drop_prefix sep rest

drop_front : (ns sep rest : Str) → drop (length ns + length sep) (ns ++ sep ++ rest) ≡ rest
drop_front [] sep rest = ap (λ n. drop n (sep ++ rest)) (omega arith) ∙ drop_prefix sep rest
drop_front (c ∷ ns) sep rest =
    let more : length (c ∷ ns) + length sep ≡ suc (length ns + length sep) = omega arith in
    ap (λ n. drop n (c ∷ ns ++ sep ++ rest)) more ∙ drop_front ns sep rest

pub cut_behind :
    (ns sep bare : Str)
    → all in_alphabet ns ≡ true
    → is_separator sep ≡ true
    → cut (ns ++ sep ++ bare) sep ≡ some (ns, bare)
unfolding cut
cut_behind ns sep bare h k =
    rw (cut, index_behind ns sep bare h k, take_front ns sep bare, drop_front ns sep bare) refl

-- A namespace that was seen is not filed again.
file_namespaces_seen :
    (ups : List Upstream) (seen : List Str) (d : Dict Upstream) (ns : Str)
    → valid_namespaces seen ups ≡ true
    → contains seen ns ≡ true
    → lookup ns (file_namespaces ups d) ≡ lookup ns d
unfolding file_namespaces valid_namespaces
file_namespaces_seen [] seen d ns h k = refl
file_namespaces_seen (u ∷ ups) seen d ns h k = elim (Bool-cases (is_empty u.namespace)) [
  | inl e ↦ rw e (file_namespaces_seen ups seen d ns (ground arith) k)
  | inr e ↦ rw e (
      file_namespaces_seen ups (u.namespace ∷ seen) (insert u.namespace u d) ns (ground arith)
        (ground arith)
      ∙ ground (arith, lookup-insert u.namespace ns u d, str_eq_iff u.namespace ns))
]

pub file_namespaces_owner :
    (before after : List Upstream) (u : Upstream) (seen : List Str) (d : Dict Upstream)
    → valid_namespaces seen (before ++ u ∷ after) ≡ true
    → is_empty u.namespace ≡ false
    → lookup u.namespace (file_namespaces (before ++ u ∷ after) d) ≡ some u
unfolding file_namespaces valid_namespaces
file_namespaces_owner [] after u seen d h e =
    rw (file_namespaces, e)
      (file_namespaces_seen after (u.namespace ∷ seen) (insert u.namespace u d) u.namespace
          (ground arith) (ground (arith, str_eq_iff u.namespace u.namespace))
        ∙ ground
            (arith, lookup-insert u.namespace u.namespace u d, str_eq_iff u.namespace u.namespace))
file_namespaces_owner (v ∷ before) after u seen d h e = elim (Bool-cases (is_empty v.namespace)) [
  | inl f ↦ rw (file_namespaces, f) (file_namespaces_owner before after u seen d (ground arith) e)
  | inr f ↦
      rw (file_namespaces, f)
        (file_namespaces_owner before after u (v.namespace ∷ seen) (insert v.namespace v d)
          (ground arith) e)
]

pub is_passthrough_named :
    (before after : List Upstream) (u : Upstream)
    → is_empty u.namespace ≡ false
    → is_passthrough (before ++ u ∷ after) ≡ false
unfolding is_passthrough
is_passthrough_named [] [] u e = e
is_passthrough_named [] (v ∷ after) u e = refl
is_passthrough_named (v ∷ []) after u e = refl
is_passthrough_named (v ∷ w ∷ before) after u e = refl

pub valid_member :
    (before after : List Upstream) (u : Upstream) (seen : List Str)
    → valid_namespaces seen (before ++ u ∷ after) ≡ true
    → is_empty u.namespace ≡ false
    → all in_alphabet u.namespace ≡ true
unfolding valid_namespaces matches_id
valid_member [] after u seen h e = in_id u.namespace (ground arith)
  where
    in_id : (id : Str) → matches_id id ≡ true → all in_alphabet id ≡ true
    in_id [] m = refl
    in_id (c ∷ id) m = ground arith
valid_member (v ∷ before) after u seen h e = elim (Bool-cases (is_empty v.namespace)) [
  | inl f ↦ valid_member before after u seen (ground arith) e
  | inr f ↦ valid_member before after u (v.namespace ∷ seen) (ground arith) e
]

all_unnamed :
    (before after : List Upstream) (u : Upstream)
    → is_empty u.namespace ≡ true
    → all (λ v. not (is_empty v.namespace)) (before ++ u ∷ after) ≡ false
all_unnamed [] after u e = ground arith
all_unnamed (v ∷ before) after u e = ground (arith, all_unnamed before after u e)

-- An upstream without a namespace is the only one.
alone_unnamed :
    (before after : List Upstream) (u : Upstream)
    → valid_names (before ++ u ∷ after) ≡ true
    → is_empty u.namespace ≡ true
    → (before ≡ []) × (after ≡ [])
unfolding valid_names
alone_unnamed [] [] u h e = (refl, refl)
alone_unnamed [] (v ∷ after) u h e = absurd (ground (arith, all_unnamed [] (v ∷ after) u e))
alone_unnamed (v ∷ before) after u h e =
    absurd
      (ground (arith, all_unnamed (v ∷ before) after u e, length-append (v ∷ before) (u ∷ after)))

pub valid_names-valid_namespaces :
    (ups : List Upstream) → valid_names ups ≡ true → valid_namespaces [] ups ≡ true
unfolding valid_names
valid_names-valid_namespaces ups h = ground arith

owner_found :
    (d : Dict Upstream) (ns bare : Str) (u : Upstream)
    → lookup ns d ≡ some u
    → owner d (some (ns, bare)) ≡ some (u, bare)
owner_found d ns bare u h = rw (owner, h) refl

resolve_named :
    (sep name : Str) (before after : List Upstream) (u : Upstream)
    → is_separator sep ≡ true
    → valid_names (before ++ u ∷ after) ≡ true
    → is_empty u.namespace ≡ false
    → resolve (new_routes (before ++ u ∷ after)) sep (u.namespace ++ sep ++ name) ≡ some (u, name)
unfolding resolve new_routes valid_names
resolve_named sep name before after u k h e =
    rw
      (
        is_passthrough_named before after u e,
        cut_behind u.namespace sep name (valid_member before after u [] (ground arith) e) k,
      )
      (owner_found (file_namespaces (before ++ u ∷ after) []) u.namespace name u
        (file_namespaces_owner before after u [] [] (ground arith) e))

-- In a configuration that `Validate` lets through, whose separator has no character of a namespace,
-- the public name of what an upstream calls `name` leads back to that upstream and that name.
pub resolve-public_name :
    (sep name : Str) (before after : List Upstream) (u : Upstream)
    → is_separator sep ≡ true
    → valid_names (before ++ u ∷ after) ≡ true
    → resolve (new_routes (before ++ u ∷ after)) sep (public_name sep u name) ≡ some (u, name)
unfolding public_name
resolve-public_name sep name before after u k h = elim (Bool-cases (is_empty u.namespace)) [
  | inl e ↦
      let (no_before, no_after) = alone_unnamed before after u h e in
      rw (e, no_before, no_after)
        (unfold resolve in unfold new_routes in unfold is_passthrough in rw e refl)
  | inr e ↦ rw e (resolve_named sep name before after u k h e)
]
