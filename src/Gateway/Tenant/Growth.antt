-- ===== src/Gateway/Tenant/Growth.antt =====
-- gateway/tenant.go: filing a tenant makes it reachable by whoever its selector covers, and changes
-- nothing for the others.
use fold.Prelude.{
  Bool, true, false, ◌&&◌, ◌||◌, List, [], ◌∷◌, ◌++◌, any, any-append, Option, none, some, Str,
  str_eq, str_eq_iff, str_eq_refl, contains, Dict, lookup, insert, lookup-insert, ◌≡◌, refl, ◌∙◌,
  arith, inl, inr, Bool-cases, Option-cases,
}
use fold.Value.{Any, Items, field_lookup}
use fold.Value.Claims.{claim_equal, items_contain, claim_satisfies}
use fold.Auth.{Principal}
use fold.Gateway.Tenant.{
  Tenant, TenantSet, key_equal, is_scalar, index_key, list_of, indexable_claim, indexable_groups,
  indexable_scope, groups_of,
}
use fold.Gateway.Tenant.Index.{add_value, add_to, add_groups, index_other, index, add_tenant}
use fold.Gateway.Tenant.Resolve.{at_value, at_key}
use fold.Gateway.Tenant.Hits.{hit, in_items, in_claim, in_claims, in_held, reached}
use fold.Gateway.Tenant.Keys.{
  key_equal_trans, key_equal_comm, claim_equal-key_equal, indexable_claim-asks,
  indexable_groups-asks, indexable_scope-asks,
}

module _ {B L : Type 0} (p : Principal) (u t : Tenant B L) where
  abbrev hits : Tenant B L → Bool
  hits = hit p u

  at_value-add_value :
      (val v : Any) (m : List (Any × List (Tenant B L)))
      → any hits (at_value (add_value val t m) v)
        ≡ (any hits (at_value m v) || (key_equal val v && hits t))
  unfolding at_value add_value
  at_value-add_value val v [] = ground arith
  at_value-add_value val v ((key, ts) ∷ m) = elim (Bool-cases (key_equal key val)) [
    | inl e ↦ ground (arith, e, key_equal_trans key val v e, any-append hits ts (t ∷ []))
    | inr e ↦ elim (Bool-cases (key_equal key v)) [
      | inl f ↦ ground (arith, e, f, key_equal_trans key v val f, key_equal_comm v val)
      | inr f ↦ ground (arith, e, f, at_value-add_value val v m)
    ]
  ]

  at_key-add_value :
      (val v : Any) (m : List (Any × List (Tenant B L)))
      → is_scalar val ≡ true
      → any hits (at_key (add_value val t m) (index_key v))
        ≡ (any hits (at_key m (index_key v)) || (claim_equal v val && hits t))
  unfolding at_key index_key
  at_key-add_value val v m h =
      ground (arith, claim_equal-key_equal v val h, at_value-add_value val v m)

  in_items-add_value :
      (val : Any) (vs : Items) (m : List (Any × List (Tenant B L)))
      → is_scalar val ≡ true
      → in_items p u (add_value val t m) vs
        ≡ (in_items p u m vs || (items_contain vs val && hits t))
  unfolding in_items items_contain
  in_items-add_value val Items.nil m h = ground arith
  in_items-add_value val (Items.cons v vs) m h =
      ground (arith, at_key-add_value val v m h, in_items-add_value val vs m h)

  in_claim-add_value :
      (val : Any) (got : Option Any) (m : List (Any × List (Tenant B L)))
      → is_scalar val ≡ true
      → in_claim p u got (add_value val t m)
        ≡ (in_claim p u got m || (claim_satisfies got val && hits t))
  unfolding in_claim claim_satisfies
  in_claim-add_value val none m h = refl
  in_claim-add_value val (some (Any.array vs)) m h = in_items-add_value val vs m h
  in_claim-add_value val (some Any.null) m h = at_key-add_value val Any.null m h
  in_claim-add_value val (some (Any.bool b)) m h = at_key-add_value val (Any.bool b) m h
  in_claim-add_value val (some (Any.float64 b)) m h = at_key-add_value val (Any.float64 b) m h
  in_claim-add_value val (some (Any.string s)) m h = at_key-add_value val (Any.string s) m h
  in_claim-add_value val (some (Any.object fs)) m h = at_key-add_value val (Any.object fs) m h

  in_claim-nothing : (got : Option Any) → in_claim p u got [] ≡ false
  unfolding in_claim in_items at_key at_value index_key
  in_claim-nothing none = refl
  in_claim-nothing (some (Any.array vs)) = nothing vs
    where
      nothing : (vs : Items) → in_items p u [] vs ≡ false
      nothing Items.nil = refl
      nothing (Items.cons v vs) = ground (arith, nothing vs)
  in_claim-nothing (some Any.null) = refl
  in_claim-nothing (some (Any.bool b)) = refl
  in_claim-nothing (some (Any.float64 b)) = refl
  in_claim-nothing (some (Any.string s)) = refl
  in_claim-nothing (some (Any.object fs)) = refl

  in_claims-insert :
      (key : Str) (val : Any) (d : Dict (List (Any × List (Tenant B L))))
      → is_scalar val ≡ true
      → in_claims p u (insert key (add_value val t (list_of (lookup key d))) d)
        ≡ (in_claims p u d || (claim_satisfies (field_lookup key p.claims) val && hits t))
  unfolding in_claims insert lookup
  in_claims-insert key val [] h =
      let got = field_lookup key p.claims in
      ground (arith, in_claim-add_value val got [] h, in_claim-nothing got)
  in_claims-insert key val ((k, m) ∷ d) h = elim (Bool-cases (str_eq k key)) [
    | inl e ↦
        let same_key = (str_eq_iff k key).0 e in
        rw same_key (
          rw (str_eq_refl key)
            (ground (arith, in_claim-add_value val (field_lookup key p.claims) m h)))
    | inr e ↦ ground (arith, e, in_claims-insert key val d h)
  ]

  in_held-add_to :
      (g : Str) (d : Dict (List (Tenant B L))) (held : List Str)
      → in_held p u (add_to g t d) held ≡ (in_held p u d held || (contains held g && hits t))
  unfolding in_held
  in_held-add_to g d [] = ground arith
  in_held-add_to g d (h ∷ held) = ground (
    arith,
    in_held-add_to g d held,
    lookup-insert g h (list_of (lookup g d) ++ t ∷ []) d,
    any-append hits (list_of (lookup g d)) (t ∷ []),
    str_eq_iff g h,
    str_eq_iff h g,
  )

  in_held-add_groups :
      (groups : List Str) (d : Dict (List (Tenant B L))) (held : List Str)
      → in_held p u (add_groups groups t d) held
        ≡ (in_held p u d held || (any (λ g. contains held g) groups && hits t))
  unfolding add_groups
  in_held-add_groups [] d held = ground arith
  in_held-add_groups (g ∷ groups) d held =
      ground (arith, in_held-add_groups groups (add_to g t d) held, in_held-add_to g d held)

  index_other-reached :
      (ts : TenantSet B L) → reached p u (index_other t ts) ≡ (reached p u ts || hits t)
  unfolding reached index_other
  index_other-reached ts = elim (Bool-cases (indexable_groups t.cfg.subjects)) [
    | inl e ↦ rw e (
        ground (
          arith,
          in_held-add_groups (groups_of t.cfg.subjects) ts.by_group p.groups,
          indexable_groups-asks t.cfg.subjects p e,
        ))
    | inr e ↦ rw e (elim (Option-cases (indexable_scope t.cfg.subjects)) [
      | inl f ↦ rw f (ground (arith, any-append hits ts.scan (t ∷ [])))
      | inr (sc, f) ↦ rw f (
          ground (
            arith,
            in_held-add_to sc ts.by_scope p.scopes,
            indexable_scope-asks t.cfg.subjects p f,
          ))
    ])
  ]

  index-reached : (ts : TenantSet B L) → reached p u (index t ts) ≡ (reached p u ts || hits t)
  unfolding index
  index-reached ts = elim (Option-cases (indexable_claim t.cfg.subjects)) [
    | inl e ↦ rw (index, e) (index_other-reached ts)
    | inr ((key, val), e) ↦
        let (scalar, asks) = indexable_claim-asks t.cfg.subjects p e in
        rw (index, e)
          (unfold reached in ground (arith, asks, in_claims-insert key val ts.by_claim scalar))
  ]

  -- A tenant that is added is reached by whoever its selector covers.
  pub add_tenant-reached :
      (ts : TenantSet B L) → reached p u (add_tenant t ts) ≡ (reached p u ts || hits t)
  unfolding add_tenant
  add_tenant-reached ts = index-reached _ ∙ (unfold reached in refl)
