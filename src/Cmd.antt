-- ===== src/Cmd.antt =====
-- The two programs (cmd).
pub mod Lvmctrld
pub mod Driverd
pub mod HostId
pub mod Addresses
