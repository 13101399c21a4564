-- ===== src/Packet/Code.antt =====
-- fsd/util.go: the FSD error codes.
use openfsd.Prelude.{ℕ}

abbrev pub callsign_in_use : ℕ
callsign_in_use = 1

abbrev pub callsign_invalid : ℕ
callsign_invalid = 2

abbrev pub syntax : ℕ
syntax = 4

abbrev pub source_invalid : ℕ
source_invalid = 5

abbrev pub invalid_logon : ℕ
invalid_logon = 6

abbrev pub no_such_callsign : ℕ
no_such_callsign = 7

abbrev pub no_weather_profile : ℕ
no_weather_profile = 9

abbrev pub invalid_protocol_revision : ℕ
invalid_protocol_revision = 10

abbrev pub requested_level_too_high : ℕ
requested_level_too_high = 11

abbrev pub certificate_suspended : ℕ
certificate_suspended = 13

abbrev pub invalid_control : ℕ
invalid_control = 14

abbrev pub invalid_position_for_rating : ℕ
invalid_position_for_rating = 15

abbrev pub unauthorized_software : ℕ
unauthorized_software = 16
