-- ===== src/Fsd/Login/FieldsRead.antt =====
-- fsd/conn.go: login packets by their fields, each field as the code that sends one writes it.
use openfsd.Prelude.{ℕ, suc, ltb, ◌≤◌, ◌≡◌, true, false, ◌++◌, some, arith, length, length-append}
use openfsd.Prelude.Bytes.{Bytes, codes, cut_prefix?-append}
use openfsd.Prelude.Int.{ℤ, pos, ◌≤ℤ◌}
use openfsd.Prelude.Decimal.{print_int, parse_int-print_int}
use openfsd.Packet.Fields.{count_fields, get_field}
use openfsd.Fsd.Login.Read.{
  accepted, in_int64, atoi?, data_with, read_atc_packet, read_pilot_packet,
}

-- A machine integer.
abbrev pub IsInt64 : ℤ → Type 0
IsInt64 z = in_int64 z ≡ some z

pub atoi?-print_int : (z : ℤ) → IsInt64 z → atoi? (print_int z) ≡ some z
unfolding atoi?
atoi?-print_int z h = rw (atoi?, parse_int-print_int z) h

module _ (now : ℕ) (ident : Bytes × ℕ) (packet callsign real_name token : Bytes)
    (cid rating revision : ℤ) (cid_fits : IsInt64 cid) (rating_fits : IsInt64 rating)
    (revision_fits : IsInt64 revision) (low : pos 100 ≤ℤ revision)
    (high : revision ≤ℤ pos 101) where
  pub read_atc_of_fields :
      count_fields packet ≡ 7
      → get_field packet 0 ≡ codes "#AA" ++ callsign
      → get_field packet 2 ≡ real_name
      → get_field packet 3 ≡ print_int cid
      → get_field packet 4 ≡ token
      → get_field packet 5 ≡ print_int rating
      → get_field packet 6 ≡ print_int revision
      → read_atc_packet now ident packet
        ≡ accepted (data_with now ident true callsign real_name cid rating revision) token
  unfolding read_atc_packet
  read_atc_of_fields n f0 f2 f3 f4 f5 f6 =
      rw
        (
          n,
          f0,
          cut_prefix?-append (codes "#AA") callsign,
          f3,
          atoi?-print_int cid cid_fits,
          f5,
          atoi?-print_int rating rating_fits,
          f6,
          atoi?-print_int revision revision_fits,
          f2,
          f4,
        )
        (ground arith)

  pub read_pilot_of_fields :
      count_fields packet ≡ 8
      → get_field packet 0 ≡ codes "#AP" ++ callsign
      → get_field packet 2 ≡ print_int cid
      → get_field packet 3 ≡ token
      → get_field packet 4 ≡ print_int rating
      → get_field packet 5 ≡ print_int revision
      → get_field packet 7 ≡ real_name
      → read_pilot_packet now ident packet
        ≡ accepted (data_with now ident false callsign real_name cid rating revision) token
  unfolding read_pilot_packet
  read_pilot_of_fields n f0 f2 f3 f4 f5 f7 =
      rw
        (
          n,
          f0,
          cut_prefix?-append (codes "#AP") callsign,
          f2,
          atoi?-print_int cid cid_fits,
          f4,
          atoi?-print_int rating rating_fits,
          f5,
          atoi?-print_int revision revision_fits,
          f7,
          f3,
        )
        (ground arith)

-- Twelve characters and a callsign are enough.
pub long_callsign :
    (callsign rest : Bytes)
    → 2 ≤ length callsign
    → 3 ≤ length rest
    → ltb (suc (suc (suc (length (callsign ++ (codes ":SERVER:" ++ rest)))))) 16 ≡ false
long_callsign callsign rest h k = ground (arith, length-append callsign (codes ":SERVER:" ++ rest))

pub length-append_ge : (a b : Bytes) (n : ℕ) → n ≤ length b → n ≤ length (a ++ b)
length-append_ge a b n h = omega (arith, length-append a b)
