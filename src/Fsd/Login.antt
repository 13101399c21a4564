-- ===== src/Fsd/Login.antt =====
-- fsd/conn.go: a connection's way to its registration.
pub mod Read
pub mod Authenticate
pub mod Conn
pub mod Vouching
pub mod Needs
pub mod Entered
pub mod Reached
pub mod FieldsRead
pub mod Announced
