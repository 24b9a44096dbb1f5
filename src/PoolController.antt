-- ===== src/PoolController.antt =====
-- controllers/exp.infrastructure/: the handlers of machine pool entries and of IP pool entries.
pub mod Ips
pub mod Validation
pub mod Handler
unfoldable pub use Validation.*
unfoldable pub use Handler.*
