-- ===== src/ClusterController.antt =====
-- controllers/infrastructure/hypercluster_controller.go: a cluster takes its control-plane endpoint
-- from the IP pool, or else from the machine pool, and gives the IP back when it is deleted.
pub mod Endpoint
pub mod Handler
unfoldable pub use Endpoint.*
unfoldable pub use Handler.*
