-- ===== src/Gateway/Meta/Stripped.antt =====
-- gateway/meta.go: what a receiver of the forwarded `_meta` reads under each key.
use fold.Prelude.{
  true, false, List, [], ◌∷◌, any, none, some, present, Str, str_eq, str_eq_iff, contains,
  if◌then◌else◌, ◌≡◌, refl, arith,
}
use fold.Value.{Any, Fields, end, field, field_lookup}
use fold.Gateway.Meta.{
  Meta, SdkKeys, field_insert, field_erase, erase_all, connection_request_meta_keys, strip_fields,
  sanitize_request_meta, fields_of, meta_upstream, tag_upstream,
}

pub field_lookup-field_erase :
    (j k : Str) (fs : Fields)
    → field_lookup k (field_erase j fs) ≡ (if str_eq j k then none else field_lookup k fs)
unfolding field_lookup field_erase
field_lookup-field_erase j k end = ground arith
field_lookup-field_erase j k (field i v fs) =
    ground (arith, str_eq_iff j k, str_eq_iff i j, str_eq_iff i k, field_lookup-field_erase j k fs)

pub field_lookup-field_insert :
    (j k : Str) (v : Any) (fs : Fields)
    → field_lookup k (field_insert j v fs) ≡ (if str_eq j k then some v else field_lookup k fs)
unfolding field_lookup field_insert
field_lookup-field_insert j k v end = refl
field_lookup-field_insert j k v (field i w fs) =
    ground
      (arith, str_eq_iff j k, str_eq_iff i j, str_eq_iff i k, field_lookup-field_insert j k v fs)

pub field_lookup-erase_all :
    (keys : List Str) (k : Str) (fs : Fields)
    → field_lookup k (erase_all keys fs) ≡ (if contains keys k then none else field_lookup k fs)
unfolding erase_all
field_lookup-erase_all [] k fs = refl
field_lookup-erase_all (j ∷ keys) k fs =
    ground
      (arith, field_lookup-erase_all keys k (field_erase j fs), field_lookup-field_erase j k fs)

-- A key of the list is absent when no key of the list is present.
lookup_absent :
    (keys : List Str) (k : Str) (fs : Fields)
    → any (λ j. present (field_lookup j fs)) keys ≡ false
    → contains keys k ≡ true
    → field_lookup k fs ≡ none
lookup_absent [] k fs h c = ground arith
lookup_absent (j ∷ keys) k fs h c = ground (arith, str_eq_iff j k, lookup_absent keys k fs)

field_lookup-strip_fields :
    (keys : List Str) (k : Str) (fs : Fields)
    → field_lookup k (strip_fields keys fs) ≡ (if contains keys k then none else field_lookup k fs)
field_lookup-strip_fields keys k end = unfold field_lookup in ground arith
field_lookup-strip_fields keys k (field i v fs) =
    ground
      (arith, lookup_absent keys k (field i v fs), field_lookup-erase_all keys k (field i v fs))

-- What an upstream reads in a forwarded `_meta`: nothing under a connection-owned key, and under
-- every other key what the caller sent.
pub sanitize_request_meta-lookup :
    (keys : SdkKeys) (meta : Meta) (k : Str)
    → field_lookup k (fields_of (sanitize_request_meta keys meta)) ≡ (
        if contains (connection_request_meta_keys keys) k
        then none
        else field_lookup k (fields_of meta))
unfolding sanitize_request_meta
sanitize_request_meta-lookup keys none k = unfold field_lookup in ground arith
sanitize_request_meta-lookup keys (some fs) k =
    field_lookup-strip_fields (connection_request_meta_keys keys) k fs

-- What a caller reads in the `_meta` of a proxied result: the id of the upstream under its own key,
-- nothing else under the key of the upstream's identity, and all else as the upstream sent it.
pub tag_upstream-lookup :
    (keys : SdkKeys) (id : Str) (meta : Meta) (k : Str)
    → field_lookup k (fields_of (tag_upstream keys id meta)) ≡ (
        if str_eq meta_upstream k
        then some (Any.string id)
        else if str_eq keys.server_info k
        then none
        else field_lookup k (fields_of meta))
unfolding tag_upstream
tag_upstream-lookup keys id meta k = ground (
  arith,
  field_lookup-field_insert meta_upstream k (Any.string id)
      (field_erase keys.server_info (fields_of meta)),
  field_lookup-field_erase keys.server_info k (fields_of meta),
)
