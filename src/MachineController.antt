-- ===== src/MachineController.antt =====
-- controllers/infrastructure/hypermachine_controller.go: a machine takes a free pool entry, provisions
-- it over SSH, and gives it back when it is deleted.
pub mod Acquire
pub mod Release
pub mod Handler
unfoldable pub use Acquire.*
unfoldable pub use Release.*
unfoldable pub use Handler.*
