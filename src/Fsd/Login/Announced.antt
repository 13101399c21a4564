-- ===== src/Fsd/Login/Announced.antt =====
-- fsd/conn.go: the add packet that everyone is sent, read as the server reads one.
use openfsd.Prelude.{ℕ, ◌<◌, ◌≡◌, refl, Bool, true, false, List, [], ◌∷◌, ◌++◌, arith, All}
use openfsd.Prelude.Bytes.{Bytes, codes, crlf, bytes_eq}
use openfsd.Prelude.Int.{pos, ◌≤ℤ◌}
use openfsd.Prelude.Decimal.{print_int, print_int-IsPlain}
use openfsd.Callsign.{is_valid_client_callsign}
use openfsd.Callsign.Valid.{IsCallsign, is_valid_client_callsign_iff, IsCallsign-IsField}
use openfsd.Packet.Fields.Join.{IsField, join_line, get_field-join_line, count_fields-join_line}
use openfsd.Fsd.Env.{Env}
use openfsd.Fsd.Client.{Client}
use openfsd.Fsd.Login.Read.{
  accepted, data_with, read_atc_packet, read_pilot_packet, read_add_packet,
}
use openfsd.Fsd.Login.Conn.{add_packet}
use openfsd.Fsd.Login.FieldsRead.{
  IsInt64, read_atc_of_fields, read_pilot_of_fields, long_callsign, length-append_ge,
}

module _ (env : Env) (c : Client env) where
  abbrev atc_fields : List Bytes
  atc_fields =
      codes "SERVER"
      ∷ c.real_name
      ∷ print_int c.cid
      ∷ []
      ∷ print_int c.network_rating
      ∷ print_int c.proto_revision
      ∷ []

  abbrev pilot_fields : List Bytes
  pilot_fields =
      codes "SERVER"
      ∷ print_int c.cid
      ∷ []
      ∷ print_int c.network_rating
      ∷ print_int c.proto_revision
      ∷ codes "1"
      ∷ c.real_name
      ∷ []

  atc_line :
      c.is_atc ≡ true → add_packet env c ≡ join_line ((codes "#AA" ++ c.callsign) ∷ atc_fields)
  unfolding add_packet
  atc_line h = rw h

  pilot_line :
      c.is_atc ≡ false → add_packet env c ≡ join_line ((codes "#AP" ++ c.callsign) ∷ pilot_fields)
  unfolding add_packet
  pilot_line h = rw h

  module _ (now : ℕ) (ident : Bytes × ℕ) (valid : IsCallsign c.callsign)
      (name : IsField c.real_name) (cid_fits : IsInt64 c.cid)
      (rating_fits : IsInt64 c.network_rating) (low : pos 100 ≤ℤ c.proto_revision)
      (high : c.proto_revision ≤ℤ pos 101) where
    revision_fits : IsInt64 c.proto_revision
    revision_fits = ground arith

    atc_fields-IsField : All IsField ((codes "#AA" ++ c.callsign) ∷ atc_fields)
    atc_fields-IsField =
        let numbers : All IsField (print_int c.network_rating ∷ print_int c.proto_revision ∷ []) =
          (print_int-IsPlain c.network_rating, (print_int-IsPlain c.proto_revision, tt)) in
        (
          (omega arith, (omega arith, (omega arith, IsCallsign-IsField c.callsign valid))),
          (omega arith, (name, (print_int-IsPlain c.cid, (tt, numbers)))),
        )

    pilot_fields-IsField : All IsField ((codes "#AP" ++ c.callsign) ∷ pilot_fields)
    pilot_fields-IsField =
        let last : All IsField (print_int c.proto_revision ∷ codes "1" ∷ c.real_name ∷ []) =
          (print_int-IsPlain c.proto_revision, (omega arith, (name, tt))) in
        (
          (omega arith, (omega arith, (omega arith, IsCallsign-IsField c.callsign valid))),
          (
            omega arith,
            (print_int-IsPlain c.cid, (tt, (print_int-IsPlain c.network_rating, last))),
          ),
        )

    atc_read :
        read_atc_packet now ident (join_line ((codes "#AA" ++ c.callsign) ∷ atc_fields))
        ≡ accepted
            (data_with now ident true c.callsign c.real_name c.cid c.network_rating
              c.proto_revision)
            []
    atc_read =
        let fs = (codes "#AA" ++ c.callsign) ∷ atc_fields in
        let field = λ (i : ℕ) (lt : i < 7). get_field-join_line fs i atc_fields-IsField lt in
        read_atc_of_fields now ident (join_line fs) c.callsign c.real_name [] c.cid c.network_rating
          c.proto_revision cid_fits rating_fits revision_fits low high
          (count_fields-join_line (codes "#AA" ++ c.callsign) atc_fields atc_fields-IsField)
          (field 0 (omega arith)) (field 2 (omega arith)) (field 3 (omega arith))
          (field 4 (omega arith)) (field 5 (omega arith)) (field 6 (omega arith))

    pilot_read :
        read_pilot_packet now ident (join_line ((codes "#AP" ++ c.callsign) ∷ pilot_fields))
        ≡ accepted
            (data_with now ident false c.callsign c.real_name c.cid c.network_rating
              c.proto_revision)
            []
    pilot_read =
        let fs = (codes "#AP" ++ c.callsign) ∷ pilot_fields in
        let field = λ (i : ℕ) (lt : i < 8). get_field-join_line fs i pilot_fields-IsField lt in
        read_pilot_of_fields now ident (join_line fs) c.callsign c.real_name [] c.cid
          c.network_rating c.proto_revision cid_fits rating_fits revision_fits low high
          (count_fields-join_line (codes "#AP" ++ c.callsign) pilot_fields pilot_fields-IsField)
          (field 0 (omega arith)) (field 2 (omega arith)) (field 3 (omega arith))
          (field 4 (omega arith)) (field 5 (omega arith)) (field 7 (omega arith))

    read_either :
        (b : Bool)
        → c.is_atc ≡ b
        → read_add_packet now ident (add_packet env c)
          ≡ accepted
              (data_with now ident b c.callsign c.real_name c.cid c.network_rating c.proto_revision)
              []
    unfolding read_add_packet bytes_eq
    read_either true e =
        let number =
          print_int c.cid
          ++ (codes "::"
              ++ (print_int c.network_rating ++ (58 ∷ (print_int c.proto_revision ++ crlf)))) in
        let long = long_callsign c.callsign (c.real_name ++ (58 ∷ number)) valid.at_least (
          length-append_ge c.real_name (58 ∷ number) 3 (
            omega (
              arith,
              length-append_ge (print_int c.cid)
                  (codes "::"
                    ++ (print_int c.network_rating ++ (58 ∷ (print_int c.proto_revision ++ crlf))))
                  2 (omega arith),
            ))) in
        rw (atc_line e, long) atc_read
    read_either false e =
        let tail =
          print_int c.network_rating
          ++ (58 ∷ (print_int c.proto_revision ++ (codes ":1:" ++ (c.real_name ++ crlf)))) in
        let long =
          long_callsign c.callsign (print_int c.cid ++ (codes "::" ++ tail)) valid.at_least (
            length-append_ge (print_int c.cid) (codes "::" ++ tail) 3 (
              omega (
                arith,
                length-append_ge (print_int c.network_rating)
                    (58 ∷ (print_int c.proto_revision ++ (codes ":1:" ++ (c.real_name ++ crlf)))) 1
                    (omega arith),
              ))) in
        rw (pilot_line e, long) pilot_read

-- The add packet that everyone is sent of a new client reads, by the server's own reading of add
-- packets, as that client's callsign, CID, rating, protocol revision, name and kind, with no token.
-- The callsign is valid, the name is a field, the numbers are machine integers, and the protocol
-- revision is one that the server accepts.
pub read-add_packet :
    (env : Env) (c : Client env) (now : ℕ) (ident : Bytes × ℕ)
    → is_valid_client_callsign c.callsign ≡ true
    → IsField c.real_name
    → IsInt64 c.cid
    → IsInt64 c.network_rating
    → pos 100 ≤ℤ c.proto_revision
    → c.proto_revision ≤ℤ pos 101
    → read_add_packet now ident (add_packet env c)
      ≡ accepted
          (data_with now ident c.is_atc c.callsign c.real_name c.cid c.network_rating
            c.proto_revision)
          []
read-add_packet env c now ident valid name cid_fits rating_fits low high =
    read_either env c now ident ((is_valid_client_callsign_iff c.callsign).0 valid) name cid_fits
      rating_fits low high c.is_atc refl
