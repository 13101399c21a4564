-- ===== src/Callsign.antt =====
-- fsd/util.go: which callsigns a client may take, and which facilities a rating may open.
pub mod Facility
pub mod Valid
mod Tests
use openfsd.Prelude.{
  ℕ, Bool, true, false, ◌&&◌, ◌||◌, not, List, [], ◌∷◌, length, leb, any, all, ◌==◌, if◌then◌else◌,
}
use openfsd.Prelude.Bytes.{Bytes, codes, bytes_eq}

unfoldable pub is_valid_callsign_length : Bytes → Bool
is_valid_callsign_length callsign = leb (length callsign) 10 && leb 2 (length callsign)

abbrev pub reserved_callsigns : List Bytes
reserved_callsigns = codes "SERVER" ∷ codes "CLIENT" ∷ codes "FP" ∷ []

-- The test in the loop of `isValidClientCallsign`.
abbrev pub is_callsign_byte : ℕ → Bool
is_callsign_byte b =
    (leb b'0' b && leb b b'9') || (leb b'A' b && leb b b'Z') || (b == b'-' || b == b'_')

unfoldable pub is_valid_client_callsign : Bytes → Bool
unfolding is_valid_callsign_length
is_valid_client_callsign callsign =
    if not (is_valid_callsign_length callsign)
    then false
    else if not (all is_callsign_byte callsign)
    then false
    else if any (bytes_eq callsign) reserved_callsigns
    then false
    else true
