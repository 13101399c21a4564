-- ===== src/Packet/Verify.antt =====
-- fsd/packet.go: the checks on a packet before its handler runs.
pub mod Accepts
pub mod Built
use mathlib.Core.Option
use openfsd.Prelude.{
  ℕ, Bool, true, false, Option, none, some, ◌||◌, not, length, ltb, if◌then◌else◌,
}
use openfsd.Prelude.Bytes.{Bytes, codes, bytes_eq, cut_prefix}
use openfsd.Prelude.Int.{pos, ltb_ℤ}
use openfsd.Packet.Code
use openfsd.Packet.Fields.{count_fields, get_field}
use openfsd.Packet.Types.{
  PacketType, unknown, get_packet_type, get_packet_prefix, min_fields, source_callsign_field_index,
}

-- `verifyPacket` returns a packet type, or has sent an error packet with a code and a message.
pub data Verdict : Type 0 where
  accepted : PacketType → Verdict
  rejected : ℕ → Bytes → Verdict

unfoldable pub get_source_callsign : Bytes → PacketType → Bytes
get_source_callsign packet t =
    cut_prefix (get_field packet (source_callsign_field_index t)) (get_packet_prefix t)

unfoldable pub verify_source_callsign : Bytes → PacketType → Bytes → Bool
unfolding get_source_callsign
verify_source_callsign packet t callsign = bytes_eq (get_source_callsign packet t) callsign

abbrev is_unknown : PacketType → Bool
is_unknown unknown = true
is_unknown _ = false

-- The checks behind `getPacketType`.
verify_typed : Bytes → Bytes → PacketType → Verdict
unfolding verify_source_callsign min_fields
verify_typed packet callsign t =
    if is_unknown t
    then rejected Code.syntax (codes "Unknown packet type")
    else if not (verify_source_callsign packet t callsign)
    then rejected Code.source_invalid (codes "Source invalid")
    else if ltb_ℤ (pos (count_fields packet)) (min_fields t)
    then rejected Code.syntax (codes "Minimum field count requirement not satisfied")
    else accepted t

-- `callsign` is the client's. none is a panic of `getPacketType`.
unfoldable pub verify_packet : Bytes → Bytes → Option Verdict
unfolding verify_typed
verify_packet packet callsign =
    if ltb (length packet) 8 || ltb (count_fields packet) 3
    then some (rejected Code.syntax (codes "Packet too short"))
    else Option.map (verify_typed packet callsign) (get_packet_type packet)
