-- ===== src/Db.antt =====
-- db: the stores behind the servers.
pub mod Users
pub mod Config
