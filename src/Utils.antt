-- ===== src/Utils.antt =====
-- utils/: the SSH client, the cloud-config reader and the provisioning of a machine.
mod Outside
pub mod Ssh
pub mod Priority
pub mod CloudInit
pub mod Provisioning
unfoldable pub use Outside.*
