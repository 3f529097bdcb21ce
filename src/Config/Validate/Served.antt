-- ===== src/Config/Validate/Served.antt =====
-- config/config.go with gateway/router.go: the names of a document that `Validate` lets through.
use fold.Prelude.{
  Bool, true, false, not, ◌&&◌, ◌||◌, List, [], ◌∷◌, ◌++◌, map, any, all, length, leb, none, some,
  Str, contains, is_empty, ◌≡◌, refl, arith, Bool-cases, inl, inr, ap, suc,
}
use fold.Config.Checks.{Rule, need, each, >>-none, need-none}
use fold.Config.Document.{UpstreamConfig, Config}
use fold.Config.Upstreams.{ParseUrl, validate_namespace, note_namespace, validate_upstreams}
use fold.Config.Sections.{Std}
use fold.Config.Validate.{
  Others, validate_all_named, validate_separator, namespace_separator, validate,
}
use fold.Gateway.Router.{
  Upstream, new_routes, resolve, public_name, is_separator, valid_namespaces, valid_names,
  matches_id, in_alphabet,
}
use fold.Gateway.Router.Names.{resolve-public_name}

and_true : {a b : Bool} → a ≡ true → b ≡ true → (a && b) ≡ true
and_true h k = ground arith

-- An upstream of the document, as routing knows it.
abbrev pub routed : UpstreamConfig → Upstream
routed u = record { id = u.id; namespace = u.namespace }

valid_namespaces_cons :
    (spaces : List Str) (u : Upstream) (ups : List Upstream)
    → is_empty u.namespace ≡ false
    → matches_id u.namespace ≡ true
    → not (contains spaces u.namespace) ≡ true
    → valid_namespaces (u.namespace ∷ spaces) ups ≡ true
    → valid_namespaces spaces (u ∷ ups) ≡ true
unfolding valid_namespaces
valid_namespaces_cons spaces u ups e m f l = rw (e, m, f) l

valid_namespaces_skip :
    (spaces : List Str) (u : Upstream) (ups : List Upstream)
    → is_empty u.namespace ≡ true
    → valid_namespaces spaces ups ≡ true
    → valid_namespaces spaces (u ∷ ups) ≡ true
unfolding valid_namespaces
valid_namespaces_skip spaces u ups e l = rw e l

namespaces_valid :
    (parse : ParseUrl) (c : Config) (ids spaces : List Str) (ups : List UpstreamConfig)
    → validate_upstreams parse c ids spaces ups ≡ none
    → valid_namespaces spaces (map routed ups) ≡ true
unfolding validate_upstreams validate_namespace
namespaces_valid parse c ids spaces [] h = unfold valid_namespaces in refl
namespaces_valid parse c ids spaces (u ∷ ups) h =
    let (a, h1) = >>-none h in
    let (b, h2) = >>-none h1 in
    let (d, h3) = >>-none h2 in
    let (named, h4) = >>-none h3 in
    let (rest, h5) = >>-none h4 in
    let later = namespaces_valid parse c (u.id ∷ ids) (note_namespace u.namespace spaces) ups h5 in
    elim (Bool-cases (is_empty u.namespace)) [
      | inl e ↦ valid_namespaces_skip spaces (routed u) (map routed ups) e (rw e at later)
      | inr e ↦
          let (matching, fresh) = >>-none (rw e at named) in
          valid_namespaces_cons spaces (routed u) (map routed ups) e (need-none _ _ _ matching)
            (need-none _ _ _ fresh) (rw e at later)
    ]

each_named :
    (ups : List UpstreamConfig)
    → each (λ (u : UpstreamConfig). need (not (is_empty u.namespace)) u.id Rule.needs_namespace) ups
      ≡ none
    → all (λ (u : Upstream). not (is_empty u.namespace)) (map routed ups) ≡ true
unfolding each
each_named [] h = refl
each_named (u ∷ ups) h = let (a, b) = >>-none h in rw (need-none _ _ _ a) (each_named ups b)

length-routed : (ups : List UpstreamConfig) → length (map routed ups) ≡ length ups
length-routed [] = refl
length-routed (u ∷ ups) = ap suc (length-routed ups)

all_named :
    (ups : List UpstreamConfig)
    → validate_all_named ups ≡ none
    → (leb (length (map routed ups)) 1
        || all (λ (u : Upstream). not (is_empty u.namespace)) (map routed ups))
      ≡ true
unfolding validate_all_named
all_named ups h = rw (length-routed ups) (elim (Bool-cases (leb (length ups) 1)) [
  | inl e ↦ rw e refl
  | inr e ↦ rw (e, each_named ups (rw e at h)) refl
])

separator_valid :
    (c : Config)
    → validate_separator c.separator ≡ none
    → is_separator (namespace_separator c) ≡ true
unfolding validate_separator is_separator namespace_separator
separator_valid c h = elim (Bool-cases (is_empty c.separator)) [
  | inl e ↦ rw e refl
  | inr e ↦
      let clean : (is_empty c.separator || not (any in_alphabet c.separator)) ≡ true =
        need-none _ _ _ h in
      rw e (rw e (rw e at clean))
]

-- What the names of a validated document have.
pub validate-valid_names :
    (std : Std) (others : Others) (c : Config)
    → validate std others c ≡ none
    → (valid_names (map routed c.upstreams) ≡ true) × (is_separator (namespace_separator c) ≡ true)
unfolding validate valid_names
validate-valid_names std others c h =
    let (a, h1) = >>-none h in
    let (ups, h2) = >>-none h1 in
    let (named, h3) = >>-none h2 in
    let (sep, h4) = >>-none h3 in
    let spaces = namespaces_valid std.parse_url c [] [] c.upstreams ups in
    let names = all_named c.upstreams named in (and_true spaces names, separator_valid c sep)

-- In a document that `Validate` lets through, the public name of what an upstream calls `name` is
-- resolved to that upstream and that name, with the separator that the document gives or the default.
pub resolve-validate :
    (std : Std) (others : Others) (c : Config) (before after : List Upstream) (u : Upstream)
    (name : Str)
    → validate std others c ≡ none
    → map routed c.upstreams ≡ before ++ u ∷ after
    → resolve
        (new_routes (map routed c.upstreams))
        (namespace_separator c)
        (public_name (namespace_separator c) u name)
      ≡ some (u, name)
resolve-validate std others c before after u name h split =
    let (names, sep) = validate-valid_names std others c h in
    rw split
      (resolve-public_name (namespace_separator c) name before after u sep (rw split at names))
