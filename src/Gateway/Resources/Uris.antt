-- ===== src/Gateway/Resources/Uris.antt =====
-- gateway/uiresource.go: a minted URI leads back to the upstream and the URI it was minted from.
use fold.Prelude.{
  true, false, List, [], ◌∷◌, ◌++◌, all, ℕ, some, Str, is_empty, append_assoc, ◌≡◌, refl, ◌∙◌, ap,
  sym, Dict, lookup,
}
use fold.Gateway.Router.{
  Upstream, new_routes, cut, valid_names, file_namespaces, in_alphabet, is_separator,
}
use fold.Gateway.Router.Names.{
  has_prefix-append, drop_prefix, cut_behind, file_namespaces_owner, is_passthrough_named,
  valid_member, valid_names-valid_namespaces,
}
use fold.Gateway.Resources.{
  ui_scheme, ui_prefix, slash, is_ui_uri, mint_ui_uri, split_ui_uri, checked_parts, ui_owner,
  owner_of_parts,
}

minted : Str → Str → Str
minted ns rest = ui_prefix ++ (ns ++ (slash ++ rest))

mint_ui_uri-minted :
    (ns rest : Str) → is_empty ns ≡ false → mint_ui_uri ns (ui_scheme ++ rest) ≡ minted ns rest
unfolding mint_ui_uri is_ui_uri minted
mint_ui_uri-minted ns rest e = rw (e, has_prefix-append ui_scheme rest) refl

split_ui_uri-minted :
    (ns rest : Str)
    → all in_alphabet ns ≡ true
    → split_ui_uri (minted ns rest) ≡ checked_parts (some (ns, rest))
unfolding split_ui_uri minted is_separator
split_ui_uri-minted ns rest h =
    rw
      (
        has_prefix-append ui_prefix (ns ++ (slash ++ rest)),
        drop_prefix ui_prefix (ns ++ (slash ++ rest)),
      )
      (ap checked_parts (
        ap (λ t. cut t slash) (sym (append_assoc ns slash rest)) ∙ cut_behind ns slash rest h refl))

owner_of_found :
    (d : Dict Upstream) (ns original : Str) (u : Upstream)
    → lookup ns d ≡ some u
    → owner_of_parts d (some (ns, original)) ≡ some (u, original)
owner_of_found d ns original u h = rw (owner_of_parts, h) refl

-- In a configuration that `Validate` lets through, a minted `ui://` URI leads back to the upstream
-- and the URI that it was minted from, unless that is the bare scheme.
pub ui_owner-mint_ui_uri :
    (before after : List Upstream) (u : Upstream) (c : ℕ) (rest : Str)
    → valid_names (before ++ u ∷ after) ≡ true
    → is_empty u.namespace ≡ false
    → ui_owner (new_routes (before ++ u ∷ after)) (mint_ui_uri u.namespace (ui_scheme ++ c ∷ rest))
      ≡ some (u, ui_scheme ++ c ∷ rest)
unfolding ui_owner new_routes
ui_owner-mint_ui_uri before after u c rest h e =
    let names = valid_names-valid_namespaces (before ++ u ∷ after) h in
    rw
      (
        is_passthrough_named before after u e,
        mint_ui_uri-minted u.namespace (c ∷ rest) e,
        split_ui_uri-minted u.namespace (c ∷ rest) (valid_member before after u [] names e),
        e,
      )
      (owner_of_found (file_namespaces (before ++ u ∷ after) []) u.namespace (ui_scheme ++ c ∷ rest)
        u (file_namespaces_owner before after u [] [] names e))
