-- ===== src/Gateway/Meta.antt =====
-- gateway/meta.go: the keys of `_meta` that belong to one connection, and `tagUpstream` of
-- gateway/router.go. The names of the keys are the SDK's and are parameters. A nil map is `none`.
pub mod Stripped
use fold.Prelude.{
  Bool, true, false, not, ◌&&◌, ◌||◌, List, [], ◌∷◌, any, Option, none, some, present, Str, str,
  str_eq, ◌==◌, is_empty, if◌then◌else◌,
}
use fold.Policy.Glob.{index}
use fold.Value.{Any, Fields, end, field, field_lookup}

abbrev pub Meta : Type 0
Meta = Option Fields

-- `m[k] = v`, and `delete(m, k)`.
unfoldable pub field_insert : Str → Any → Fields → Fields
field_insert k v end = field k v end
field_insert k v (field j w fs) =
    if str_eq j k then field k v fs else field j w (field_insert k v fs)

unfoldable pub field_erase : Str → Fields → Fields
field_erase k end = end
field_erase k (field j v fs) = if str_eq j k then field_erase k fs else field j v (field_erase k fs)

unfoldable pub erase_all : List Str → Fields → Fields
unfolding field_erase
erase_all [] fs = fs
erase_all (k ∷ keys) fs = erase_all keys (field_erase k fs)

abbrev pub no_meta_fields : Fields → Bool
no_meta_fields end = true
no_meta_fields (field k v fs) = false

-- The names that the SDK gives to the connection-owned keys: `MetaKeyProtocolVersion`,
-- `MetaKeyClientInfo`, `MetaKeyClientCapabilities`, `MetaKeyServerInfo`.
pub record SdkKeys : Type 0 where
  pub protocol_version : Str
  pub client_info : Str
  pub client_capabilities : Str
  pub server_info : Str

abbrev pub connection_request_meta_keys : SdkKeys → List Str
connection_request_meta_keys k = k.protocol_version ∷ k.client_info ∷ k.client_capabilities ∷ []

abbrev pub strip_fields : List Str → Fields → Fields
strip_fields keys fs =
    if no_meta_fields fs
    then fs
    else if not (any (λ k. present (field_lookup k fs)) keys)
    then fs
    else erase_all keys fs

unfoldable pub sanitize_request_meta : SdkKeys → Meta → Meta
unfolding erase_all field_lookup
sanitize_request_meta k none = none
sanitize_request_meta k (some fs) = some (strip_fields (connection_request_meta_keys k) fs)

unfoldable pub strip_result_meta : SdkKeys → Meta → Meta
unfolding field_erase
strip_result_meta k none = none
strip_result_meta k (some fs) = some (field_erase k.server_info fs)

abbrev pub meta_key_prefix : Str
meta_key_prefix = str "io.modelcontextprotocol/"

-- A blob with no backslash and without the prefix spells none of the keys.
unfoldable pub skip_raw_scan : Str → Bool
unfolding index
skip_raw_scan raw =
    is_empty raw || (not (present (index raw meta_key_prefix)) && not (any (λ b. b == 92) raw))

abbrev pub fields_of : Meta → Fields
fields_of none = end
fields_of (some fs) = fs

abbrev pub meta_upstream : Str
meta_upstream = str "run.fold/upstream"

unfoldable pub tag_upstream : SdkKeys → Str → Meta → Meta
unfolding field_erase field_insert
tag_upstream k id meta =
    some (field_insert meta_upstream (Any.string id) (field_erase k.server_info (fields_of meta)))
