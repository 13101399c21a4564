-- ===== src/Callsign/Tests.antt =====
-- fsd/util.go: runs at concrete inputs.
use openfsd.Prelude.{◌≡◌, ◌↔◌, true}
use openfsd.Prelude.Bytes.{codes}
use openfsd.Prelude.Int.{pos}
use openfsd.Callsign.{is_valid_client_callsign}
use openfsd.Callsign.Facility.{is_allowed_facility_type, MayOpen, is_allowed_facility_type_iff}
use openfsd.Callsign.Valid.{IsCallsign, is_valid_client_callsign_iff}

is_allowed_facility_type_iff_example :
    (is_allowed_facility_type (pos 3) (pos 4) ≡ true) ↔ MayOpen (pos 3) (pos 4)
is_allowed_facility_type_iff_example = is_allowed_facility_type_iff (pos 3) (pos 4)

is_valid_client_callsign_iff_example :
    (is_valid_client_callsign (codes "N1_TWR") ≡ true) ↔ IsCallsign (codes "N1_TWR")
is_valid_client_callsign_iff_example = is_valid_client_callsign_iff (codes "N1_TWR")
