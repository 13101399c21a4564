-- ===== src/Fsd.antt =====
-- fsd: the FSD server.
pub mod Env
pub mod Client
pub mod PostOffice
pub mod Broadcast
pub mod Numbers
pub mod Auth
pub mod Handlers
pub mod Jwt
pub mod Login
pub mod Server
pub mod Metar
pub mod Service
pub mod Tests
