-- ===== src/Fsd/Handlers.antt =====
-- fsd/handler.go: the handlers of verified packets. Each one is a function on the state of the server,
-- for the client that sent the packet, by its address.
pub mod Text
pub mod Query
pub mod Position
pub mod Plans
