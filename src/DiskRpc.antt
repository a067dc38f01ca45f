-- ===== src/DiskRpc.antt =====
-- Synchronous calls between nodes over the mailboxes (pkg/diskrpc/diskrpc.go).
pub mod Rpc
pub mod Laws
pub mod RoundTrip
