-- ===== src/Store.antt =====
-- The SQLite store (store/*.py, store/migrations/*.sql), as one record of tables. Stamps, which are
-- ISO texts in UTC, are numbers with the same order, and JSON columns hold the JSON value.
pub mod Json
pub mod Tables
pub mod Messages
pub mod Edges
pub mod Peers
pub mod Db
