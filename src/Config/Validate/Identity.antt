-- ===== src/Config/Validate/Identity.antt =====
-- config/config.go: what a document that `Validate` lets through asks of its callers.
use fold.Prelude.{
  Bool, true, false, not, ◌||◌, List, [], ◌∷◌, any, Option, none, some, present, is_empty, Str, ◌≡◌,
  refl, Bool-cases, inl, inr,
}
use fold.Config.Checks.{on, >>-none, need-none}
use fold.Config.Document.{
  UpstreamConfig, ServerSection, Introspection, Console, ConsoleOauth, Config,
}
use fold.Config.Upstreams.{
  ParseUrl, validate_rest, per_principal, auth_required, note_namespace, validate_upstreams,
}
use fold.Config.Sections.{Std}
use fold.Config.Server.{validate_console, validate_viewers, validate_oauth}
use fold.Config.Validate.{Others, validate}
use fold.Config.Validate.Guarded.{validate-Passed}

either_or : (a b c : Bool) → (not a || c) ≡ true → (not b || c) ≡ true → (not (a || b) || c) ≡ true
either_or true b c h k = h
either_or false b c h k = k

-- A per-principal credential strategy stands only beside required authentication.
needs_auth :
    (parse : ParseUrl) (c : Config) (ids spaces : List Str) (ups : List UpstreamConfig)
    → validate_upstreams parse c ids spaces ups ≡ none
    → (not (any (λ (u : UpstreamConfig). per_principal u.auth) ups) || auth_required c) ≡ true
unfolding validate_upstreams validate_rest
needs_auth parse c ids spaces [] h = refl
needs_auth parse c ids spaces (u ∷ ups) h =
    let (a, h1) = >>-none h in
    let (b, h2) = >>-none h1 in
    let (d, h3) = >>-none h2 in
    let (e, h4) = >>-none h3 in
    let (rest, h5) = >>-none h4 in
    let (r1, k1) = >>-none rest in
    let (r2, k2) = >>-none k1 in
    let (r3, k3) = >>-none k2 in
    let (r4, k4) = >>-none k3 in
    let (r5, k5) = >>-none k4 in
    let (r6, k6) = >>-none k5 in
    let (r7, k7) = >>-none k6 in
    let one = need-none (not (per_principal u.auth) || auth_required c) _ _ k7 in
    let more = needs_auth parse c (u.id ∷ ids) (note_namespace u.namespace spaces) ups h5 in
    either_or (per_principal u.auth) _ (auth_required c) one more

-- A list of viewers, and a console that signs in.
abbrev pub has_viewers : Option Introspection → Bool
has_viewers none = false
has_viewers (some i) = not (is_empty i.groups)

abbrev pub has_oauth : Option Console → Bool
has_oauth none = false
has_oauth (some k) = present k.oauth

abbrev pub lists_viewers : Option ServerSection → Bool
lists_viewers none = false
lists_viewers (some s) = has_viewers s.introspection

abbrev pub signs_in : Option ServerSection → Bool
signs_in none = false
signs_in (some s) = has_oauth s.console

viewers_auth :
    (std : Std) (c : Config) (i : Option Introspection)
    → on i (validate_viewers std c) ≡ none
    → (not (has_viewers i) || auth_required c) ≡ true
unfolding validate_viewers
viewers_auth std c none h = refl
viewers_auth std c (some i) h = elim (Bool-cases (is_empty i.groups)) [
  | inl e ↦ rw e refl
  | inr e ↦
      let (entries, required) = >>-none (rw e at h) in
      rw e (need-none (auth_required c) _ _ required)
]

oauth_auth :
    (std : Std) (c : Config) (o : Option ConsoleOauth)
    → on o (validate_oauth std c) ≡ none
    → (not (present o) || auth_required c) ≡ true
unfolding validate_oauth
oauth_auth std c none h = refl
oauth_auth std c (some o) h =
    let (a, h1) = >>-none h in
    let (b, h2) = >>-none h1 in
    let (required, issuer) = >>-none h2 in need-none (auth_required c) _ _ required

console_auth :
    (std : Std) (c : Config) (k : Option Console)
    → on k (λ (x : Console). on x.oauth (validate_oauth std c)) ≡ none
    → (not (has_oauth k) || auth_required c) ≡ true
console_auth std c none h = refl
console_auth std c (some k) h = oauth_auth std c k.oauth h

server_auth :
    (std : Std) (c : Config) (s : Option ServerSection)
    → on s (λ (x : ServerSection). on x.introspection (validate_viewers std c)) ≡ none
    → on s
        (λ (x : ServerSection). on x.console (λ (k : Console). on k.oauth (validate_oauth std c)))
      ≡ none
    → (not (lists_viewers s || signs_in s) || auth_required c) ≡ true
server_auth std c none h k = refl
server_auth std c (some s) h k =
    either_or (has_viewers s.introspection) (has_oauth s.console) (auth_required c)
      (viewers_auth std c s.introspection h) (console_auth std c s.console k)

-- What rests on the identity of the caller: a strategy that forwards or exchanges its token, a list
-- of viewers for the introspection, and a console that signs in.
abbrev pub asks_identity : Config → Bool
asks_identity c =
    any (λ (u : UpstreamConfig). per_principal u.auth) c.upstreams
    || (lists_viewers c.server || signs_in c.server)

-- A document that `Validate` lets through has a strategy that forwards or exchanges the caller's
-- token, a list of viewers for the introspection, or a console that signs in, only when
-- authentication is required.
pub validate-needs_auth :
    (std : Std) (others : Others) (c : Config)
    → validate std others c ≡ none
    → asks_identity c ≡ true
    → auth_required c ≡ true
unfolding validate_console
validate-needs_auth std others c h asks =
    let p = validate-Passed std others c h in
    let (viewers, rest) = >>-none p.console in
    let (shown, oauth) = >>-none rest in
    let q =
      either_or (any (λ (u : UpstreamConfig). per_principal u.auth) c.upstreams)
        (lists_viewers c.server || signs_in c.server) (auth_required c)
        (needs_auth std.parse_url c [] [] c.upstreams p.upstreams)
        (server_auth std c c.server viewers oauth) in
    rw asks at q
