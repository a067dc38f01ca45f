-- ===== src/Driver/Controller.antt =====
-- The CSI controller service (pkg/driverd/controllerserver.go).
pub mod Pages
pub mod Paging
pub mod Volumes
pub mod Create
pub mod CreateLaws
pub mod CreateLocks
pub mod Snapshots
pub mod SnapshotLaws
pub mod SnapshotList
pub mod Answers
