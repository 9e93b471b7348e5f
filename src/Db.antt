-- ===== src/Db.antt =====
-- app/db: the tables, the session with its transaction, and the repository.
pub mod Models
pub mod Engine
pub mod Session
pub mod Repository
pub mod Integrity
