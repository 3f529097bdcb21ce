-- ===== src/State.antt =====
-- internal/: the runtime state of the gateway (bounded map, breaker, limiter, budgets, list cache).
-- A time is a number of nanoseconds; a duration is a ℤ where the code tests its sign, and otherwise
-- a number.
pub mod Bounded
pub mod Breaker
pub mod Budget
pub mod Limiter
pub mod Stores
