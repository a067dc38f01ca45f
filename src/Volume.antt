-- ===== src/Volume.antt =====
-- Volume references and identifiers (pkg/driverd/volumeref.go, pkg/driverd/volumeinfo.go, and the
-- regular expressions of pkg/driverd/controllerserver.go).
pub mod Ref
pub mod Pattern
pub mod Names
pub mod Created
