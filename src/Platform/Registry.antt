-- ===== src/Platform/Registry.antt =====
-- libs/platform/src/chatbot_platform/registry.py. A method is a statement on the tables. The clock
-- `sql.utcnow()` is the argument `now`, and a fresh id of `uuid` the argument `run_id`.
-- A `select` without an order is read in the order of the rows.
mod Rows
pub mod Queries
mod Statements
pub mod Laws
pub mod Additions
unfoldable pub use Rows.*
unfoldable pub use Queries.*
unfoldable pub use Statements.*
