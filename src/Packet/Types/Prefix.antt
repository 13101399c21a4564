-- ===== src/Packet/Types/Prefix.antt =====
-- `getPacketType` and `getPacketPrefix` against each other.
use openfsd.Prelude.{◌≤◌, ◌≡◌, ◌≢◌, refl, [], ◌∷◌, ◌++◌, none, some, arith, length}
use openfsd.Prelude.Bytes.{Bytes, bytes_eq}
use openfsd.Packet.Types.{
  PacketType, unknown, get_packet_type, get_packet_prefix, hash_type, dollar_type, first_three,
}

-- A packet that starts with the prefix of a type has that type, for every known type.
pub get_packet_type-prefix :
    (t : PacketType) (rest : Bytes)
    → t ≢ unknown
    → get_packet_type (get_packet_prefix t ++ rest) ≡ some t
unfolding get_packet_type get_packet_prefix hash_type dollar_type first_three bytes_eq
get_packet_type-prefix unknown rest h = absurd (h refl)
get_packet_type-prefix _ rest h = refl

-- On three bytes or more `getPacketType` does not panic.
pub get_packet_type-ne-none : (p : Bytes) → 3 ≤ length p → get_packet_type p ≢ none
unfolding get_packet_type first_three
get_packet_type-ne-none [] h = absurd (omega arith)
get_packet_type-ne-none (a ∷ []) h = absurd (omega arith)
get_packet_type-ne-none (a ∷ b ∷ []) h = absurd (omega arith)
get_packet_type-ne-none (a ∷ b ∷ c ∷ s) h = ground arith
