-- ===== src/Gateway.antt =====
-- gateway/: the request path of the gateway, by its files.
pub mod Errors
pub mod Hook
pub mod Calls
pub mod Complete
pub mod Pipeline
pub mod Meta
pub mod Run
pub mod Paginate
pub mod Shaping
pub mod Tasks
pub mod TaskRoutes
pub mod TaskList
pub mod TaskPages
pub mod Tenant
pub mod Resources
pub mod Router
