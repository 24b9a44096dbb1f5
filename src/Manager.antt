-- ===== src/Manager.antt =====
-- How the controllers are wired to the manager: the update filters of each `SetupWithManager`, the
-- set-up itself, main.go, and the scheme, by which the API types are known to the manager.
pub mod Filters
pub mod Start
pub mod Schemes
