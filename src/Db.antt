-- ===== src/Db.antt =====
-- db/: connections, the connection pool and transactions over libpqxx.
pub mod Errors
pub mod Pqxx
pub mod Session
pub mod Rows
pub mod Pool
pub mod Tx
mod Examples
