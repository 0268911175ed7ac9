-- ===== src/Engine.antt =====
-- sstp-proto/src/engine.rs: the client's protocol engine.
mod State
mod Handlers
pub mod History
pub mod Quiet
pub mod Authentic
pub mod Handshake
pub mod Panics
pub mod Replies
pub mod Exchange
pub mod Early
pub mod Complete
pub mod Rechallenge
pub use State.*
unfoldable pub use Handlers.*
