-- ===== src/Packet/Tests.antt =====
-- fsd/packet.go, fsd/util.go: runs at concrete inputs.
use openfsd.Prelude.{◌≡◌, ◌↔◌, List, [], ◌∷◌, ◌++◌, some, arith}
use openfsd.Prelude.Bytes.{Bytes, codes, cut_crlf, crlf}
use openfsd.Packet.Fields.{get_field}
use openfsd.Packet.Fields.Split.{split, field_or_last, get_field_lem}
use openfsd.Packet.Fields.Join.{join_line, get_field-join_line}
use openfsd.Packet.Types.{text_message, pro_controller, get_packet_prefix, min_fields}
use openfsd.Packet.Verify.Built.{verify_packet-join_line}
use openfsd.Packet.Verify.{accepted, verify_packet}
use openfsd.Packet.Verify.Accepts.{IsWellFormed, verify_packet-accepted_iff}

abbrev message : Bytes
message = codes "#TMN1:TWR:hello" ++ crlf

abbrev words : List Bytes
words = codes "#TMN1" ∷ codes "TWR" ∷ codes "hello" ∷ []

get_field_lem_example : get_field message 2 ≡ cut_crlf (field_or_last (split message) 2)
get_field_lem_example = get_field_lem message 2

get_field-join_line_example : get_field (join_line words) 2 ≡ codes "hello"
get_field-join_line_example = get_field-join_line words 2 (omega arith) (omega arith)

verify_packet-accepted_iff_example :
    (verify_packet message (codes "N1") ≡ some (accepted text_message))
    ↔ IsWellFormed message (codes "N1") text_message
verify_packet-accepted_iff_example = verify_packet-accepted_iff message (codes "N1") text_message

abbrev pro_controller_packet : Bytes
pro_controller_packet = codes "#PCLAX_TWR:LAX_APP:CCP:ID" ++ crlf

verify_packet-join_line_example :
    verify_packet pro_controller_packet (codes "LAX_TWR") ≡ some (accepted pro_controller)
unfolding get_packet_prefix min_fields
verify_packet-join_line_example =
    verify_packet-join_line pro_controller (codes "LAX_TWR")
      (codes "LAX_APP" ∷ codes "CCP" ∷ codes "ID" ∷ []) (λ e. absurd (cc)) (λ e. absurd (cc))
      (omega arith) (omega arith) (omega arith) (omega arith)
