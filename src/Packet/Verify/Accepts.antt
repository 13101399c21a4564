-- ===== src/Packet/Verify/Accepts.antt =====
-- Which packets `verifyPacket` lets through.
use openfsd.Prelude.{
  ◌≤◌, ◌≡◌, ◌≢◌, ◌↔◌, inl, inr, refl, ap, ◌∙◌, none, some, arith, length, Option-cases,
}
use openfsd.Prelude.Bytes.{Bytes, bytes_eq_iff}
use openfsd.Prelude.Int.{pos, ◌≤ℤ◌}
use openfsd.Packet.Fields.{count_fields}
use openfsd.Packet.Types.{PacketType, unknown, get_packet_type, min_fields}
use openfsd.Packet.Types.Prefix.{get_packet_type-ne-none}
use openfsd.Packet.Verify.{accepted, get_source_callsign, verify_typed, verify_packet}

-- What a packet of a client with this callsign has to be.
pub record IsWellFormed (packet callsign : Bytes) (t : PacketType) : Type 0 where
  pub long : 8 ≤ length packet
  pub enough : 3 ≤ count_fields packet
  pub typed : get_packet_type packet ≡ some t
  pub known : t ≢ unknown
  pub source : get_source_callsign packet t ≡ callsign
  pub fields : min_fields t ≤ℤ pos (count_fields packet)

verify_typed-accepted :
    (packet callsign : Bytes) (t u : PacketType)
    → verify_typed packet callsign t ≡ accepted u
    → (t ≡ u)
      × (u ≢ unknown)
      × (get_source_callsign packet u ≡ callsign)
      × (min_fields u ≤ℤ pos (count_fields packet))
unfolding verify_typed
verify_typed-accepted packet callsign unknown u h = absurd (ground arith)
verify_typed-accepted packet callsign t u h =
    ground (arith, bytes_eq_iff (get_source_callsign packet t) callsign)

verify_typed_of_IsWellFormed :
    (packet callsign : Bytes) (t : PacketType)
    → IsWellFormed packet callsign t
    → verify_typed packet callsign t ≡ accepted t
unfolding verify_typed
verify_typed_of_IsWellFormed packet callsign unknown w = absurd (w.known refl)
verify_typed_of_IsWellFormed packet callsign t w =
    ground (arith, bytes_eq_iff (get_source_callsign packet t) callsign)

verify_packet-eq-some :
    (packet callsign : Bytes) (t : PacketType)
    → verify_packet packet callsign ≡ some (accepted t)
    → (8 ≤ length packet)
      × (3 ≤ count_fields packet)
      × ((u : PacketType) × (get_packet_type packet ≡ some u)
          × (verify_typed packet callsign u ≡ accepted t))
unfolding verify_packet
verify_packet-eq-some packet callsign t h = elim (Option-cases (get_packet_type packet)) [
  | inl missing ↦ absurd (ground arith)
  | inr (u, typed) ↦ (ground arith, ground arith, (u, typed, ground arith))
]

verify_packet-IsWellFormed :
    (packet callsign : Bytes) (t : PacketType)
    → verify_packet packet callsign ≡ some (accepted t)
    → IsWellFormed packet callsign t
verify_packet-IsWellFormed packet callsign t h =
    let (long, enough, found) = verify_packet-eq-some packet callsign t h in
    let (u, typed, checked) = found in
    let (same, known, source, fields) = verify_typed-accepted packet callsign u t checked in
    record {
      long = long;
      enough = enough;
      typed = typed ∙ ap some same;
      known = known;
      source = source;
      fields = fields;
    }

-- `verifyPacket` accepts a packet as type `t` exactly when the packet is long enough, has that type,
-- names the client as its source and has the fields that the type needs.
pub verify_packet-accepted_iff :
    (packet callsign : Bytes) (t : PacketType)
    → (verify_packet packet callsign ≡ some (accepted t)) ↔ IsWellFormed packet callsign t
unfolding verify_packet
verify_packet-accepted_iff packet callsign t = (
  verify_packet-IsWellFormed packet callsign t,
  λ w. ground (arith, verify_typed_of_IsWellFormed packet callsign t w),
)

-- Whatever the packet, `verifyPacket` returns: it never slices past the packet's end.
pub verify_packet-ne-none : (packet callsign : Bytes) → verify_packet packet callsign ≢ none
unfolding verify_packet
verify_packet-ne-none packet callsign h = ground (arith, get_packet_type-ne-none packet)
