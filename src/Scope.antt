-- ===== src/Scope.antt =====
-- utils/scope/: what one reconcile of a machine or of a cluster works on.
pub mod MachineDefs
pub mod ClusterDefs
unfoldable pub use MachineDefs.*
unfoldable pub use ClusterDefs.*
