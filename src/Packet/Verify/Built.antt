-- ===== src/Packet/Verify/Built.antt =====
-- Packets that a client builds in the form of a type are accepted as that type.
use openfsd.Prelude.{
  suc, ◌≤◌, ◌≡◌, ◌≢◌, refl, sym, ap, ◌∙◌, List, [], ◌∷◌, ◌++◌, some, arith, length, All, All-append,
}
use mathlib.Core.Path.{subst}
use mathlib.Core.List.{append_assoc}
use openfsd.Prelude.Bytes.{Bytes, crlf, cut_prefix-append}
use openfsd.Prelude.Int.{pos, ◌≤ℤ◌}
use openfsd.Packet.Fields.{colon, count_fields, get_field}
use openfsd.Packet.Fields.Join.{IsField, join_line, get_field-join_line, count_fields-join_line}
use openfsd.Packet.Types.{
  PacketType, unknown, pilot_position, get_packet_type, get_packet_prefix, min_fields,
  source_callsign_field_index,
}
use openfsd.Packet.Types.Prefix.{get_packet_type-prefix}
use openfsd.Packet.Verify.{accepted, get_source_callsign, verify_packet}
use openfsd.Packet.Verify.Accepts.{verify_packet-accepted_iff}

-- A line starts as its first field starts.
join_line-append :
    (p f : Bytes) (fs : List Bytes) → join_line ((p ++ f) ∷ fs) ≡ p ++ join_line (f ∷ fs)
join_line-append p f [] = append_assoc p f crlf
join_line-append p f (g ∷ fs) = append_assoc p f (colon ∷ join_line (g ∷ fs))

prefix-IsField : (t : PacketType) → IsField (get_packet_prefix t)
unfolding get_packet_prefix
prefix-IsField unknown = tt
prefix-IsField _ = omega arith

source_first : (t : PacketType) → t ≢ pilot_position → source_callsign_field_index t ≡ 0
unfolding source_callsign_field_index
source_first pilot_position h = absurd (h refl)
source_first _ h = refl

-- A line whose first field is the prefix of a type with a client's callsign is let through as a packet
-- of that type from that client: its fields hold no colon and no carriage return, there are three at
-- least and as many as the type needs, and the line has eight bytes. Of the known types, the pilot's
-- position is left out, which has the callsign in its second field.
pub verify_packet-join_line :
    (t : PacketType) (callsign : Bytes) (fields : List Bytes)
    → t ≢ unknown
    → t ≢ pilot_position
    → All IsField (callsign ∷ fields)
    → 3 ≤ length (callsign ∷ fields)
    → min_fields t ≤ℤ pos (length (callsign ∷ fields))
    → let packet = join_line ((get_packet_prefix t ++ callsign) ∷ fields) in
      8 ≤ length packet → verify_packet packet callsign ≡ some (accepted t)
unfolding get_source_callsign
verify_packet-join_line t callsign fields known other (plain, plains) three enough long =
    let first = get_packet_prefix t ++ callsign in
    let packet = join_line (first ∷ fields) in
    let all_plain : All IsField (first ∷ fields) = (
      All-append (λ c. (c ≢ colon) × (c ≢ 13)) (get_packet_prefix t) callsign (prefix-IsField t)
          plain,
      plains,
    ) in
    let counted : count_fields packet ≡ suc (length fields) =
      count_fields-join_line first fields all_plain in
    let field : get_field packet 0 ≡ first =
      get_field-join_line (first ∷ fields) 0 all_plain (omega arith) in
    (verify_packet-accepted_iff packet callsign t).1 (record {
      long = long;
      enough = subst (λ n. 3 ≤ n) (sym counted) three;
      typed =
          ap get_packet_type (join_line-append (get_packet_prefix t) callsign fields)
          ∙ get_packet_type-prefix t (join_line (callsign ∷ fields)) known;
      known = known;
      source = rw (source_first t other, field) (cut_prefix-append (get_packet_prefix t) callsign);
      fields = subst (λ n. min_fields t ≤ℤ pos n) (sym counted) enough;
    })
