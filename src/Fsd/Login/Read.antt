-- ===== src/Fsd/Login/Read.antt =====
-- fsd/conn.go: reading the two login packets.
use mathlib.Core.Option
use openfsd.Prelude.{
  ℕ, ◌+◌, ◌-◌, ◌*◌, ◌^◌, Bool, true, false, ◌&&◌, ◌||◌, not, String, [], ◌∷◌, Option, none, some,
  length, take, ltb, leb, ◌==◌, if◌then◌else◌,
}
use openfsd.Prelude.Bytes.{Bytes, codes, bytes_eq, cut_prefix?}
use openfsd.Prelude.Int.{ℤ, pos, negsuc, ltb_ℤ}
use openfsd.Prelude.Decimal.{parse_int}
use openfsd.Packet.Code
use openfsd.Packet.Fields.{count_fields, get_field}

pub record LoginData : Type 0 where
  pub client_challenge : Bytes
  pub callsign : Bytes
  pub cid : ℤ
  pub real_name : Bytes
  pub network_rating : ℤ
  pub max_network_rating : ℤ
  pub proto_revision : ℤ
  pub login_time : ℕ
  pub client_id : ℕ
  pub is_atc : Bool

-- The error that was sent, or the data and the token.
pub data Reading : Type 0 where
  refused : ℕ → Bytes → Reading
  accepted : LoginData → Bytes → Reading

abbrev pub in_int64 : ℤ → Option ℤ
in_int64 (pos n) = if ltb n (2 ^ 63) then some (pos n) else none
in_int64 (negsuc n) = if ltb n (2 ^ 63) then some (negsuc n) else none

-- `strconv.Atoi`; none is an error.
unfoldable pub atoi? : Bytes → Option ℤ
atoi? s = elim (parse_int s) [ none ↦ none | some z ↦ in_int64 z ]

-- The value of a hexadecimal digit.
abbrev pub hex_value : ℕ → Option ℕ
hex_value c =
    if leb b'0' c && leb c b'9'
    then some (c - 48)
    else if leb b'a' c && leb c b'f'
    then some (c - 87)
    else if leb b'A' c && leb c b'F'
    then some (c - 55)
    else none

unfoldable pub parse_hex_from : ℕ → Bytes → Option ℕ
parse_hex_from acc [] = some acc
parse_hex_from acc (c ∷ s) = elim (hex_value c) [
  | none ↦ none
  | some d ↦ parse_hex_from (acc * 16 + d) s
]

abbrev pub in_uint16 : Option ℕ → Option ℕ
in_uint16 none = none
in_uint16 (some n) = if ltb n (2 ^ 16) then some n else none

-- `strconv.ParseUint(s, 16, 16)`; none is an error.
unfoldable pub parse_hex_uint16 : Bytes → Option ℕ
unfolding parse_hex_from
parse_hex_uint16 [] = none
parse_hex_uint16 (c ∷ s) = in_uint16 (parse_hex_from 0 (c ∷ s))

-- The challenge and the client's ID, from an ID packet with a field for the challenge.
unfoldable pub read_ident : Bytes → Option (Bytes × ℕ)
read_ident packet =
    if count_fields packet == 9
    then Option.map (λ n. (get_field packet 8, n)) (parse_hex_uint16 (get_field packet 2))
    else some ([], 0)

-- `if err != nil { sendError(conn, SyntaxError, ...); return }`.
abbrev pub or_refuse {ℓ} : {A : Type ℓ} → Option A → String → (A → Reading) → Reading
or_refuse none message k = refused Code.syntax (codes message)
or_refuse (some a) message k = k a

abbrev pub check_revision : LoginData → Bytes → Reading
check_revision d token =
    if ltb_ℤ d.proto_revision (pos 100) || ltb_ℤ (pos 101) d.proto_revision
    then refused Code.invalid_protocol_revision (codes "Invalid protocol revision")
    else accepted d token

module _ (now : ℕ) (ident : Bytes × ℕ) where
  -- What the rest of a login packet gives.
  abbrev pub data_with : Bool → Bytes → Bytes → ℤ → ℤ → ℤ → LoginData
  data_with is_atc callsign real_name cid rating revision = record {
    client_challenge = ident.0;
    callsign = callsign;
    cid = cid;
    real_name = real_name;
    network_rating = rating;
    max_network_rating = pos 0;
    proto_revision = revision;
    login_time = now;
    client_id = ident.1;
    is_atc = is_atc;
  }

  module _ (packet : Bytes) where
    unfoldable pub read_atc_packet : Reading
    unfolding atoi?
    read_atc_packet =
        if not (count_fields packet == 7)
        then refused Code.syntax (codes "Invalid number of fields in ATC add packet")
        else or_refuse (cut_prefix? (get_field packet 0) (codes "#AA"))
            "Invalid callsign in add packet"
            λ callsign.
              or_refuse (atoi? (get_field packet 3)) "Invalid CID in ATC add packet" λ cid.
                or_refuse (atoi? (get_field packet 5)) "Invalid network rating in pilot add packet"
                  λ rating.
                    or_refuse (atoi? (get_field packet 6))
                      "Invalid protocol revision in ATC add packet"
                      λ revision.
                        check_revision
                          (data_with true callsign (get_field packet 2) cid rating revision)
                          (get_field packet 4)

    unfoldable pub read_pilot_packet : Reading
    unfolding atoi?
    read_pilot_packet =
        if not (count_fields packet == 8)
        then refused Code.syntax (codes "Invalid number of fields in pilot add packet")
        else or_refuse (cut_prefix? (get_field packet 0) (codes "#AP"))
            "Invalid callsign in add packet"
            λ callsign.
              or_refuse (atoi? (get_field packet 2)) "Invalid CID in pilot add packet" λ cid.
                or_refuse (atoi? (get_field packet 4)) "Invalid network rating in pilot add packet"
                  λ rating.
                    or_refuse (atoi? (get_field packet 5))
                      "Invalid protocol revision in pilot add packet"
                      λ revision.
                        check_revision
                          (data_with false callsign (get_field packet 7) cid rating revision)
                          (get_field packet 3)

    unfoldable pub read_add_packet : Reading
    unfolding read_atc_packet read_pilot_packet
    read_add_packet =
        if ltb (length packet) 16
        then refused Code.syntax (codes "Invalid add packet")
        else if bytes_eq (take 3 packet) (codes "#AA")
        then read_atc_packet
        else if bytes_eq (take 3 packet) (codes "#AP")
        then read_pilot_packet
        else refused Code.syntax (codes "Invalid add packet prefix")

-- The two lines that the scanner gives; none is a failed scan.
unfoldable pub read_login_packets : ℕ → Option Bytes → Option Bytes → Reading
unfolding read_ident read_add_packet parse_hex_uint16
read_login_packets now first second =
    or_refuse first "Error reading Client ident packet" λ id_packet.
      or_refuse second "Error reading add packet" λ add_packet.
        or_refuse (read_ident id_packet) "Error parsing client ID"
          λ ident. read_add_packet now ident add_packet
