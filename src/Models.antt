-- ===== src/Models.antt =====
-- The rows of the models (apps/*/models.py), and the database that the services act on. Keys
-- (UUIDs, serial numbers) are only compared, so they are numbers; a nullable column is an `Option`.
-- Timestamps are seconds. Columns that no modelled code reads or writes are left out.
mod Rows
mod Database
pub use Rows.*
pub use Database.*
