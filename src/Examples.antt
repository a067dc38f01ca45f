-- ===== src/Examples.antt =====
-- The theorems at concrete inputs.
pub mod Blocks
pub mod Names
pub mod Locks
pub mod Services
pub mod Mailboxes
pub mod Remote
pub mod Deliveries
pub mod Starts
