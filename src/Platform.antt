-- ===== src/Platform.antt =====
-- libs/platform: the data platform.
pub mod Models
pub mod Registry
pub mod Gate
pub mod Index
pub mod Versioning
pub mod Documents
pub mod Ingest
pub mod Ops
pub mod Stores
pub mod Exports
