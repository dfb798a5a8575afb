-- ===== src/Store.antt =====
-- The MySQL store that packages repository and service share: its rows, what SQL statements do to
-- a table, and transactions. A transaction runs alone (the source locks the rows that it reads),
-- and rolls back when its function returns an error.
mod Rows
pub mod Allocation
pub mod Directory
mod Database
mod Table
mod Transaction
pub mod Statements
pub mod Laws
pub mod Updates
unfoldable pub use Rows.*
pub use Database.*
unfoldable pub use Table.*
unfoldable pub use Transaction.*
