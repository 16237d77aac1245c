-- ===== src/Scripts.antt =====
-- scripts: what the continuous integration of the repository decides.
pub mod ChangedPackages
pub mod Boundaries
pub mod Codes
pub mod Comments
pub mod Dashboards
