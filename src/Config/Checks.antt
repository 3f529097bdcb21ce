-- ===== src/Config/Checks.antt =====
-- config/config.go: a validation is the first refusal of a sequence of checks. A refusal names its
-- subject and the rule that was broken; the wording is left out.
use fold.Prelude.{
  ℤ, pos, leb_int, Bool, true, false, not, List, [], ◌∷◌, all, Option, none, some, Str, contains,
  ◌≡◌, refl,
}

pub data Rule : Type 0 where
  no_upstream bad_id duplicate_id url_or_urls bad_pin no_url bad_url duplicate_endpoint : Rule
  bad_namespace duplicate_namespace bad_interval low_response_cap negative_timeout : Rule
  negative_breaker bad_period no_allowance bad_protocol no_secret no_client no_audience : Rule
  unknown_strategy bad_client_auth needs_auth needs_namespace bad_separator : Rule
  invalid_url insecure no_subjects unencodable identical_subjects empty_scope : Rule
  server_level_limit unknown_upstream no_timeout bad_on_error unknown_stage : Rule
  unknown_method bad_mode no_resource no_issuer bad_issuer no_key negative_limit : Rule
  empty_entry bad_decision no_rule_id no_clause negative_items unknown_server bad_kind : Rule
  no_path not_scalar bad_host unbounded_credentials no_sink_path two_credentials : Rule
  unknown_sink misplaced_credential negative_size inverted_backoff not_durable : Rule
  low_icon_cap no_icon_src bad_theme bad_address reserved_path needs_introspection : Rule
  no_console_client needs_console no_direct_issuer bad_origin : Rule

pub record Problem : Type 0 where
  pub subject : Str
  pub rule : Rule

abbrev pub Check : Type 0
Check = Option Problem

infixl 5 ◌>>◌
unfoldable pub ◌>>◌ : Check → Check → Check
none >> k = k
some p >> k = some p

abbrev pub problem : Str → Rule → Check
problem subject rule = some (record { subject = subject; rule = rule })

unfoldable pub need : Bool → Str → Rule → Check
need true subject rule = none
need false subject rule = problem subject rule

abbrev pub is_fine : Check → Bool
is_fine none = true
is_fine (some p) = false

unfoldable pub each {ℓ} : {A : Type ℓ} → (A → Check) → List A → Check
each f [] = none
each f (x ∷ xs) = f x >> each f xs

pub >>-none : {a b : Check} → (a >> b) ≡ none → (a ≡ none) × (b ≡ none)
unfolding ◌>>◌
>>-none {a = none} h = (refl, h)
>>-none {a = some p} h = cc

pub need-none : (b : Bool) (subject : Str) (rule : Rule) → need b subject rule ≡ none → b ≡ true
unfolding need
need-none true subject rule h = refl
need-none false subject rule h = cc

pub each-all {ℓ} :
    {A : Type ℓ} (f : A → Check) (xs : List A)
    → each f xs ≡ none
    → all (λ x. is_fine (f x)) xs ≡ true
unfolding each
each-all f [] h = refl
each-all f (x ∷ xs) h = let (a, b) = >>-none h in rw a (each-all f xs b)

-- A check on a section that may be missing.
abbrev pub on {ℓ} : {A : Type ℓ} → Option A → (A → Check) → Check
on none f = none
on (some a) f = f a

abbrev pub one_of : Str → List Str → Bool
one_of s words = contains words s

abbrev pub negative : ℤ → Bool
negative z = not (leb_int (pos 0) z)
