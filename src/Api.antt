-- ===== src/Api.antt =====
-- The Kubernetes objects that the controllers read and write, and the client that stores them.
mod LabelMap
mod Objects
mod Interface
mod Laws
unfoldable pub use LabelMap.*
unfoldable pub use Objects.*
unfoldable pub use Interface.*
pub use Laws.*
