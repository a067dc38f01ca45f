-- ===== src/Driver.antt =====
-- The CSI driver daemon (pkg/driverd).
pub mod Fetch
pub mod NodeId
pub mod Lock
pub mod Capability
pub mod FileSystem
pub mod Node
pub mod Identity
pub mod Controller
pub mod RpcService
pub mod Retry
pub mod Start
pub mod Client
pub mod Listener
