-- ===== src/Allocator.antt =====
-- The buddy allocator of the mailbox (pkg/diskrpc/allocator.go).
pub mod Heap
pub mod Positions
pub mod Tree
pub mod Frame
pub mod Taking
pub mod Freeing
pub mod Blocks
pub mod Root
pub mod Create
