-- ===== src/Store.antt =====
-- src/adapters/sqlite.rs and the files below it: the repository. A database is a record of tables, a
-- table a list of its rows in the order of insertion, a statement an operation on such lists. A
-- transaction returns the new database or an error, and an error leaves the database as it was. The
-- writer thread runs one request at a time. `now_ms()` is an argument.
pub mod Catalog
pub mod Plans
pub mod Tables
pub mod Read
pub mod Projection
pub mod Commit
pub mod Channel
pub mod Documents
pub mod Outbox
pub mod History
