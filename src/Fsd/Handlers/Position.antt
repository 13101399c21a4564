-- ===== src/Fsd/Handlers/Position.antt =====
-- fsd/handler.go: position updates, and their parsers in fsd/util.go.
use mathlib.Core.Option
use openfsd.Prelude.{
  ℕ, ◌/◌, ◌%◌, Bool, true, false, not, ◌∷◌, ◌++◌, Option, none, some, if◌then◌else◌,
}
use openfsd.Prelude.Bytes.{Bytes, codes, crlf}
use openfsd.Prelude.Int.{pos, eqb_ℤ}
use openfsd.Callsign.Facility.{is_allowed_facility_type}
use openfsd.Packet.Code
use openfsd.Packet.Fields.{colon, get_field}
use openfsd.Fsd.Env.{Env}
use openfsd.Fsd.Client.{Client, send, cancel}
use openfsd.Fsd.Numbers.{atoi, to_int32, parse_int32, parse_uint32}
use openfsd.Fsd.PostOffice.{World, modify, update_position}
use openfsd.Fsd.Broadcast.{broadcast_ranged, broadcast_ranged_velocity, reply_error}

module _ (env : Env) where
  open env use {Float, mul, div, lt}

  unfoldable pub parse_lat_lon : Bytes → ℕ → ℕ → Option (Float × Float)
  parse_lat_lon packet lat_index lon_index = elim (env.parse_float (get_field packet lat_index)) [
    | none ↦ none
    | some lat ↦ Option.map (λ lon. (lat, lon)) (env.parse_float (get_field packet lon_index))
  ]

  unfoldable pub parse_vis_range : Bytes → ℕ → Option Float
  parse_vis_range packet index =
      Option.map (λ r. mul r env.nautical_mile) (env.parse_float (get_field packet index))

  -- The heading of `pitchBankHeading`, which is all that its caller uses.
  unfoldable pub pitch_bank_heading : ℕ → Float
  pitch_bank_heading packed = mul (env.of_ℕ (packed / 4 % 1024)) env.heading_ratio

  abbrev send_fast_packet : Bool → Client env → Bytes
  send_fast_packet enabled c =
      codes "$SFSERVER:" ++ (c.callsign ++ colon ∷ ((if enabled then 49 else 48) ∷ crlf))

  unfoldable pub send_send_fast_packet : Bool → Client env → Client env
  send_send_fast_packet enabled c = send env (send_fast_packet enabled c) c

  -- What a packet says of a pilot beside the position.
  abbrev pub note_pilot : ℕ → Bytes → Client env → Client env
  note_pilot now packet c = record c {
    transponder = get_field packet 2;
    groundspeed = to_int32 (atoi (get_field packet 7));
    altitude = to_int32 (atoi (get_field packet 6));
    heading = env.to_int (pitch_bank_heading (parse_uint32 (get_field packet 8)));
    last_updated = now;
  }

  -- The switch of fast updates: on below five nautical miles to the closest client of protocol
  -- revision 101, off above them.
  unfoldable pub update_send_fast : Client env → Client env
  update_send_fast c =
      let miles = div c.closest_velocity_client_distance env.nautical_mile in
      if not (eqb_ℤ c.proto_revision (pos 101))
      then c
      else if c.send_fast_enabled
      then (if lt env.five miles
          then send_send_fast_packet false (record c { send_fast_enabled = false })
          else c)
      else if lt miles env.five
      then send_send_fast_packet true (record c { send_fast_enabled = true })
      else c

  unfoldable pub handle_pilot_position : ℕ → ℕ → Bytes → World env → World env
  handle_pilot_position now id packet w = elim (parse_lat_lon packet 4 5) [
    | none ↦ reply_error env id Code.syntax (codes "Invalid latitude/longitude") w
    | some place ↦
        modify env id (λ c. update_send_fast (note_pilot now packet c))
          (broadcast_ranged env id packet
            (update_position env id place.0 place.1 env.pilot_vis_range w))
  ]

  unfoldable pub handle_fast_pilot_position : ℕ → Bytes → World env → World env
  handle_fast_pilot_position id packet w = broadcast_ranged_velocity env id packet w

  abbrev pub atc_move : ℕ → ℕ → Bytes → World env → World env
  atc_move now id packet w = elim (parse_lat_lon packet 5 6) [
    | none ↦ reply_error env id Code.syntax (codes "Invalid latitude/longitude") w
    | some place ↦ elim (parse_vis_range packet 3) [
      | none ↦ reply_error env id Code.syntax (codes "Invalid visibility range") w
      | some range ↦
          modify env id (λ c. record c { last_updated = now })
            (broadcast_ranged env id packet (update_position env id place.0 place.1 range w))
    ]
  ]

  -- The facility type is kept also where the rest of the packet is refused.
  unfoldable pub handle_atc_position : ℕ → ℕ → Bytes → World env → World env
  handle_atc_position now id packet w = elim (parse_int32 (get_field packet 2)) [
    | none ↦ reply_error env id Code.syntax (codes "Invalid facility type") w
    | some t ↦
        if not (is_allowed_facility_type (w.clients id).network_rating t)
        then modify env id (cancel env) (
            reply_error env id Code.invalid_position_for_rating
              (codes "Invalid position for rating") w)
        else atc_move now id packet (modify env id (λ c. record c { facility_type = t }) w)
  ]
