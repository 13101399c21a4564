-- ===== src/Packet/Types.antt =====
-- fsd/packet.go: packet types, their prefixes and their least number of fields.
pub mod Prefix
use openfsd.Prelude.{ℕ, List, [], ◌∷◌, Option, none, some, ◌==◌, if◌then◌else◌}
use openfsd.Prelude.Bytes.{Bytes, codes, bytes_eq}
use openfsd.Prelude.Int.{ℤ, pos, negsuc}
use mathlib.Core.Option

pub data PacketType : Type 0 where
  unknown : PacketType
  text_message : PacketType
  pilot_position pilot_position_fast pilot_position_slow pilot_position_stopped : PacketType
  atc_position delete_atc delete_pilot : PacketType
  client_query client_query_response : PacketType
  pro_controller squawkbox metar_request kill_request auth_challenge : PacketType
  handoff_request handoff_accept flight_plan flight_plan_amendment : PacketType

unfoldable pub source_callsign_field_index : PacketType → ℕ
source_callsign_field_index pilot_position = 1
source_callsign_field_index _ = 0

-- The two inner switches, on `packet[:3]`.
unfoldable pub hash_type : Bytes → PacketType
hash_type p =
    if bytes_eq p (codes "#DA")
    then delete_atc
    else if bytes_eq p (codes "#DP")
    then delete_pilot
    else if bytes_eq p (codes "#TM")
    then text_message
    else if bytes_eq p (codes "#SL")
    then pilot_position_slow
    else if bytes_eq p (codes "#ST")
    then pilot_position_stopped
    else if bytes_eq p (codes "#PC")
    then pro_controller
    else if bytes_eq p (codes "#SB")
    then squawkbox
    else unknown

unfoldable pub dollar_type : Bytes → PacketType
dollar_type p =
    if bytes_eq p (codes "$CQ")
    then client_query
    else if bytes_eq p (codes "$CR")
    then client_query_response
    else if bytes_eq p (codes "$AX")
    then metar_request
    else if bytes_eq p (codes "$!!")
    then kill_request
    else if bytes_eq p (codes "$ZC")
    then auth_challenge
    else if bytes_eq p (codes "$HO")
    then handoff_request
    else if bytes_eq p (codes "$HA")
    then handoff_accept
    else if bytes_eq p (codes "$FP")
    then flight_plan
    else if bytes_eq p (codes "$AM")
    then flight_plan_amendment
    else unknown

-- `packet[:3]`; none is a slice past the packet's end.
unfoldable pub first_three : Bytes → Option Bytes
first_three (a ∷ b ∷ c ∷ s) = some (a ∷ b ∷ c ∷ [])
first_three _ = none

-- none is a panic: an empty packet, or one of fewer than three bytes that starts with '#' or '$'.
unfoldable pub get_packet_type : Bytes → Option PacketType
get_packet_type [] = none
get_packet_type (c ∷ s) =
    if c == b'^'
    then some pilot_position_fast
    else if c == b'@'
    then some pilot_position
    else if c == b'%'
    then some atc_position
    else if c == b'#'
    then Option.map hash_type (first_three (c ∷ s))
    else if c == b'$'
    then Option.map dollar_type (first_three (c ∷ s))
    else some unknown

unfoldable pub get_packet_prefix : PacketType → Bytes
get_packet_prefix pilot_position_fast = codes "^"
get_packet_prefix pilot_position = codes "@"
get_packet_prefix atc_position = codes "%"
get_packet_prefix delete_atc = codes "#DA"
get_packet_prefix delete_pilot = codes "#DP"
get_packet_prefix text_message = codes "#TM"
get_packet_prefix pilot_position_slow = codes "#SL"
get_packet_prefix pilot_position_stopped = codes "#ST"
get_packet_prefix pro_controller = codes "#PC"
get_packet_prefix squawkbox = codes "#SB"
get_packet_prefix client_query = codes "$CQ"
get_packet_prefix client_query_response = codes "$CR"
get_packet_prefix metar_request = codes "$AX"
get_packet_prefix kill_request = codes "$!!"
get_packet_prefix auth_challenge = codes "$ZC"
get_packet_prefix handoff_request = codes "$HO"
get_packet_prefix handoff_accept = codes "$HA"
get_packet_prefix flight_plan = codes "$FP"
get_packet_prefix flight_plan_amendment = codes "$AM"
get_packet_prefix _ = []

unfoldable pub min_fields : PacketType → ℤ
min_fields pilot_position = pos 9
min_fields pilot_position_fast = pos 13
min_fields pilot_position_slow = pos 13
min_fields pilot_position_stopped = pos 7
min_fields atc_position = pos 7
min_fields delete_atc = pos 1
min_fields delete_pilot = pos 1
min_fields text_message = pos 3
min_fields pro_controller = pos 4
min_fields squawkbox = pos 3
min_fields client_query = pos 3
min_fields client_query_response = pos 3
min_fields metar_request = pos 4
min_fields kill_request = pos 3
min_fields auth_challenge = pos 3
min_fields handoff_request = pos 3
min_fields handoff_accept = pos 3
min_fields flight_plan = pos 17
min_fields flight_plan_amendment = pos 18
min_fields _ = negsuc 0
