-- ===== src/Mailbox.antt =====
-- The mailboxes on a shared disk (pkg/diskrpc/mailbox.go).
pub mod Device
pub mod Layout
pub mod Header
pub mod State
pub mod Torn
pub mod Messages
pub mod Draining
pub mod Stored
pub mod Range
pub mod Giving
pub mod Chain
pub mod Segments
pub mod Inbox
pub mod Delivery
pub mod Sending
pub mod Blank
pub mod Formatting
pub mod Formatted
pub mod Opening
