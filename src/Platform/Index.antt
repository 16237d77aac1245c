-- ===== src/Platform/Index.antt =====
-- libs/platform/src/chatbot_platform/index.py: the serving index. The port `ServingIndex` and what
-- its clients rely on, and the two adapters, in memory and on Postgres.
mod Intervals
mod Port
pub mod Memory
pub mod Postgres
pub mod Search
unfoldable pub use Intervals.*
pub use Port.*
