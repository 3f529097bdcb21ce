-- ===== src/Gateway/Router/Failures.antt =====
-- gateway/router.go: when a fan-out fails.
use fold.Prelude.{
  ◌==◌, ◌≤◌, Bool, true, false, not, ◌&&◌, List, [], ◌∷◌, all, any, length, Str, is_empty,
  sort_strings, length-sort_strings, ◌≡◌, refl, arith,
}
use fold.Gateway.Router.{
  Upstream, Answer, is_error, failed_ids, fan_out, Partial, all_well, some_failed, all_down,
  partial_failure_meta,
}

abbrev pub is_down : Partial → Bool
is_down all_well = false
is_down (some_failed ids) = false
is_down (all_down ids) = true

abbrev pub is_well : Partial → Bool
is_well all_well = true
is_well (some_failed ids) = false
is_well (all_down ids) = false

module _ {ℓ} {T : Type ℓ} (fn : Upstream → Answer T) where
  failed_ids-le : (ups : List Upstream) → length (failed_ids fn ups) ≤ length ups
  unfolding failed_ids
  failed_ids-le [] = omega arith
  failed_ids-le (u ∷ ups) = ground (arith, failed_ids-le ups)

  failed_ids-all :
      (ups : List Upstream)
      → (length (failed_ids fn ups) == length ups) ≡ all (λ u. is_error (fn u)) ups
  unfolding failed_ids
  failed_ids-all [] = refl
  failed_ids-all (u ∷ ups) = ground (arith, failed_ids-le ups, failed_ids-all ups)

  failed_ids-any :
      (ups : List Upstream)
      → (length (failed_ids fn ups) == 0) ≡ not (any (λ u. is_error (fn u)) ups)
  unfolding failed_ids
  failed_ids-any [] = refl
  failed_ids-any (u ∷ ups) = ground (arith, failed_ids-any ups)

  empty-length : (ids : List Str) → is_empty ids ≡ (length ids == 0)
  empty-length [] = refl
  empty-length (x ∷ ids) = ground arith

  -- `partialFailureMeta`, on the failures of a fan-out, gives its error exactly when there are upstreams
  -- and every one of them failed, and no marker exactly when none failed. What else may fail a list
  -- request is not part of it.
  pub partial_failure_meta-fan_out :
      (ups : List Upstream)
      → let outcome = partial_failure_meta (fan_out fn ups).1 (length ups) in
        (is_down outcome ≡ (any (λ u. is_error (fn u)) ups && all (λ u. is_error (fn u)) ups))
        × (is_well outcome ≡ not (any (λ u. is_error (fn u)) ups))
  unfolding partial_failure_meta fan_out
  partial_failure_meta-fan_out ups =
      let ids = failed_ids fn ups in
      let sorted = sort_strings ids in
      let count = length-sort_strings ids in
      (
        ground (arith, count, empty-length sorted, failed_ids-all ups, failed_ids-any ups),
        ground (arith, count, empty-length sorted, failed_ids-all ups, failed_ids-any ups),
      )
