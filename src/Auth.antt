-- ===== src/Auth.antt =====
-- auth/principal.go: the authenticated caller. The expiry is a time in nanoseconds.
use fold.Prelude.{ℕ, List, Str}
use fold.Value.{Fields}

pub record Principal : Type 0 where
  pub subject : Str
  pub issuer : Str
  pub groups : List Str
  pub scopes : List Str
  pub token : Str
  pub expiry : ℕ
  pub claims : Fields
