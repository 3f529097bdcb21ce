-- ===== src/Tests.antt =====
-- Runs on concrete inputs.
mod Data
mod World
mod Requests
mod Pipeline
mod Tasks
mod Audit
mod Config
mod Policy
mod State
mod Gateway
mod Tenants
