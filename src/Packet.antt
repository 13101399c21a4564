-- ===== src/Packet.antt =====
-- fsd/packet.go and the field functions of fsd/util.go: the text of a packet, its type, and the
-- checks that a packet passes before its handler runs.
pub mod Code
pub mod Fields
pub mod Types
pub mod Verify
mod Tests
