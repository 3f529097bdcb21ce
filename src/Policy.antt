-- ===== src/Policy.antt =====
-- policy/policy.go: the deny-by-default allowlist engine.
pub mod Glob
pub mod Subjects
pub mod Clauses
pub mod Engine
