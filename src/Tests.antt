-- ===== src/Tests.antt =====
-- A sample platform: version 1 with document "a" is served, version 2 with documents "a" and "b" is
-- a candidate that an expert approved. The theorems are applied to it, and the code is run on it.
pub mod Sample
pub mod Publishing
mod Sweeping
mod Staging
mod Checking
mod Uploading
mod Restarting
mod Indexing
mod Searching
mod Streaming
mod Calling
mod Storing
mod Selecting
mod Releasing
mod Commenting
mod Dashboards
pub mod Registering
