-- ===== src/Tags.antt =====
-- LVM tags (pkg/driverd/tagencoder.go, pkg/driverd/tags.go).
pub mod Encoder
pub mod RoundTrip
pub mod KeyValue
pub mod KeyRoundTrip
pub mod MapRoundTrip
