-- ===== src/Lvmctrld.antt =====
-- The LVM control daemon (pkg/lvmctrld).
pub mod Messages
pub mod Pattern
pub mod Errors
pub mod Server
pub mod Laws
pub mod Listener
pub mod Start
unfoldable pub use Messages.*
