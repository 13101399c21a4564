-- ===== src/Fsd/Server.antt =====
-- fsd/client.go and fsd/handler.go: what the server does with one packet of a client, and the steps
-- that change its state.
pub mod Keeps
pub mod Walks
pub mod Sent
pub mod Handled
pub mod Queried
pub mod Moves
pub mod Packets
pub mod Steps
pub mod Distinct
pub mod Everyone
pub mod Directory
use openfsd.Prelude.{ℕ, ◌≡◌, ◌≢◌, Option, none, some, ◌==◌, if◌then◌else◌}
use openfsd.Prelude.Bytes.{Bytes}
use openfsd.Packet.Types.{
  PacketType, unknown, text_message, pilot_position, pilot_position_fast, pilot_position_slow,
  pilot_position_stopped, atc_position, delete_atc, delete_pilot, client_query,
  client_query_response, pro_controller, squawkbox, metar_request, kill_request, auth_challenge,
  handoff_request, handoff_accept, flight_plan, flight_plan_amendment,
}
use openfsd.Packet.Verify.{Verdict, accepted, rejected, verify_packet}
use openfsd.Fsd.Env.{Env, Box, box_eq}
use openfsd.Fsd.Client.{Client}
use openfsd.Fsd.PostOffice.{World, modify, register, release, lookup, box_of}
use openfsd.Fsd.Broadcast.{reply_error}
use openfsd.Fsd.Handlers.Text.{
  handle_text_message, handle_delete, handle_squawkbox, handle_procontroller, handle_metar_request,
  handle_kill_request, handle_auth_challenge, handle_handoff,
}
use openfsd.Fsd.Handlers.Query.{
  handle_client_query, handle_file_flightplan, handle_amend_flightplan,
}
use openfsd.Fsd.Handlers.Position.{
  handle_pilot_position, handle_fast_pilot_position, handle_atc_position,
}

module _ (env : Env) where
  -- `getHandler`, applied.
  unfoldable pub handle : ℕ → PacketType → ℕ → Bytes → World env → World env
  handle now text_message id packet w = handle_text_message env id packet w
  handle now atc_position id packet w = handle_atc_position env now id packet w
  handle now pilot_position id packet w = handle_pilot_position env now id packet w
  handle now pilot_position_fast id packet w = handle_fast_pilot_position env id packet w
  handle now pilot_position_slow id packet w = handle_fast_pilot_position env id packet w
  handle now pilot_position_stopped id packet w = handle_fast_pilot_position env id packet w
  handle now delete_pilot id packet w = handle_delete env id packet w
  handle now delete_atc id packet w = handle_delete env id packet w
  handle now squawkbox id packet w = handle_squawkbox env id packet w
  handle now pro_controller id packet w = handle_procontroller env id packet w
  handle now client_query id packet w = handle_client_query env id packet w
  handle now client_query_response id packet w = handle_client_query env id packet w
  handle now kill_request id packet w = handle_kill_request env id packet w
  handle now auth_challenge id packet w = handle_auth_challenge env id packet w
  handle now handoff_request id packet w = handle_handoff env id packet w
  handle now handoff_accept id packet w = handle_handoff env id packet w
  handle now metar_request id packet w = handle_metar_request env id packet w
  handle now flight_plan id packet w = handle_file_flightplan env id packet w
  handle now flight_plan_amendment id packet w = handle_amend_flightplan env id packet w
  handle now unknown id packet w = w

  -- The loop's body in `eventLoop`, for a packet with its line end. A panic would end the connection
  -- (handleConn recovers from it); it leaves the state here.
  unfoldable pub on_packet : ℕ → ℕ → Bytes → World env → World env
  on_packet now id packet w = elim (verify_packet packet (w.clients id).callsign) [
    | none ↦ w
    | some (rejected code message) ↦ reply_error env id code message w
    | some (accepted t) ↦ handle now t id packet w
  ]
