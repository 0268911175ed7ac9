-- ===== src/Connection.antt =====
-- sstp-proto/src/connection.rs: the loop that moves bytes between the TLS stream, the engine and
-- the tunnel device.
mod State
mod Events
mod Handlers
pub mod Stream
pub mod Device
pub mod Log
pub mod Handoff
pub mod Loop
pub mod Keepalive
pub mod Opening
pub mod Safety
pub mod Handle
pub use State.*
unfoldable pub use Events.*
unfoldable pub use Handlers.*
