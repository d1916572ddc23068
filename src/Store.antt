-- ===== src/Store.antt =====
-- coderus/models.py and coderus/tasks/statuses.py: the rows of the database and the statuses of
-- a task, with the transactions that read and write them.
mod Status
mod Schema
mod Transaction
pub mod Tables
unfoldable pub use Status.*
pub use Schema.*
unfoldable pub use Transaction.*
