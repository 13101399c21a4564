-- ===== src/Fsd/Server/Packets.antt =====
-- fsd/client.go, eventLoop's body: what one packet keeps, whoever sent it and whatever it holds.
use openfsd.Prelude.{ℕ, ◌≡◌, ◌⊎◌, true, Option, none, some}
use openfsd.Prelude.Bytes.{Bytes}
use openfsd.Prelude.Int.{◌≤ℤ◌}
use openfsd.Callsign.Facility.{supervisor}
use openfsd.Packet.Types.{
  PacketType, unknown, text_message, pilot_position, pilot_position_fast, pilot_position_slow,
  pilot_position_stopped, atc_position, delete_atc, delete_pilot, client_query,
  client_query_response, pro_controller, squawkbox, metar_request, kill_request, auth_challenge,
  handoff_request, handoff_accept, flight_plan, flight_plan_amendment,
}
use openfsd.Packet.Verify.{Verdict, accepted, rejected, verify_packet}
use openfsd.Fsd.Env.{Env, Laws}
use openfsd.Fsd.PostOffice.{World}
use openfsd.Fsd.PostOffice.Invariant.{IsRegistered, IsConsistent}
use openfsd.Fsd.Broadcast.{reply_error}
use openfsd.Fsd.Handlers.Position.{handle_fast_pilot_position}
use openfsd.Fsd.Server.{handle, on_packet}
use openfsd.Fsd.Server.Keeps.{Keeps, Keeps-refl}
use openfsd.Fsd.Server.Walks.{reply_error-Keeps}
use openfsd.Fsd.Server.Sent.{velocity-Keeps}
use openfsd.Fsd.Server.Handled.{
  text_message-Keeps, delete-Keeps, squawkbox-Keeps, procontroller-Keeps, metar-Keeps, kill-Keeps,
  auth_challenge-Keeps, handoff-Keeps,
}
use openfsd.Fsd.Server.Queried.{client_query-Keeps, file_flightplan-Keeps, amend_flightplan-Keeps}
use openfsd.Fsd.Server.Moves.{IsReal, pilot_position-Keeps, atc_position-Keeps}

module _ (env : Env) (laws : Laws env) where
  handle-Keeps :
      (now : ℕ) (t : PacketType) (id : ℕ) (packet : Bytes) (w : World env)
      → IsReal env laws packet
      → Keeps env laws id w (handle env now t id packet w)
  unfolding handle handle_fast_pilot_position
  handle-Keeps now text_message id packet w real = text_message-Keeps env laws id packet w
  handle-Keeps now atc_position id packet w real = atc_position-Keeps env laws now id packet w real
  handle-Keeps now pilot_position id packet w real =
      pilot_position-Keeps env laws now id packet w real
  handle-Keeps now pilot_position_fast id packet w real = velocity-Keeps env laws id packet w
  handle-Keeps now pilot_position_slow id packet w real = velocity-Keeps env laws id packet w
  handle-Keeps now pilot_position_stopped id packet w real = velocity-Keeps env laws id packet w
  handle-Keeps now delete_pilot id packet w real = delete-Keeps env laws id packet w
  handle-Keeps now delete_atc id packet w real = delete-Keeps env laws id packet w
  handle-Keeps now squawkbox id packet w real = squawkbox-Keeps env laws id packet w
  handle-Keeps now pro_controller id packet w real = procontroller-Keeps env laws id packet w
  handle-Keeps now client_query id packet w real = client_query-Keeps env laws id packet w
  handle-Keeps now client_query_response id packet w real = client_query-Keeps env laws id packet w
  handle-Keeps now kill_request id packet w real = kill-Keeps env laws id packet w
  handle-Keeps now auth_challenge id packet w real = auth_challenge-Keeps env laws id packet w
  handle-Keeps now handoff_request id packet w real = handoff-Keeps env laws id packet w
  handle-Keeps now handoff_accept id packet w real = handoff-Keeps env laws id packet w
  handle-Keeps now metar_request id packet w real = metar-Keeps env laws id packet w
  handle-Keeps now flight_plan id packet w real = file_flightplan-Keeps env laws id packet w
  handle-Keeps now flight_plan_amendment id packet w real =
      amend_flightplan-Keeps env laws id packet w
  handle-Keeps now unknown id packet w real = Keeps-refl env laws id w

  pub on_packet-Keeps :
      (now id : ℕ) (packet : Bytes) (w : World env)
      → IsReal env laws packet
      → Keeps env laws id w (on_packet env now id packet w)
  unfolding on_packet
  on_packet-Keeps now id packet w real = go (verify_packet packet (w.clients id).callsign)
    where
      go :
          (v : Option Verdict)
          → Keeps env laws id w (elim v [
            | none ↦ w
            | some (rejected code message) ↦ reply_error env id code message w
            | some (accepted t) ↦ handle env now t id packet w
          ])
      go none = Keeps-refl env laws id w
      go (some (rejected code message)) = reply_error-Keeps env laws id code message w
      go (some (accepted t)) = handle-Keeps now t id packet w real

  -- Whatever packet a registered client sends, the map and the tree agree after it as before, and
  -- every client that was registered still is. No box of a position in the packet has a corner that
  -- is not a number.
  pub on_packet-IsConsistent :
      (now id : ℕ) (packet : Bytes) (w : World env)
      → IsReal env laws packet
      → IsConsistent env laws w
      → IsRegistered env laws w id
      → IsConsistent env laws (on_packet env now id packet w)
        × ((c : ℕ)
            → IsRegistered env laws w c
            → IsRegistered env laws (on_packet env now id packet w) c)
  on_packet-IsConsistent now id packet w real ok reg =
      let kept = on_packet-Keeps now id packet w real in (kept.consistent ok reg, kept.registered)

  -- A packet ends the context of a client other than its sender only where the sender is a
  -- supervisor or above: a context that has ended behind the packet had ended before it, is the
  -- sender's, or the sender's rating is at least a supervisor's. No box of a position in the
  -- packet has a corner that is not a number.
  pub on_packet_ends :
      (now id c : ℕ) (packet : Bytes) (w : World env)
      → IsReal env laws packet
      → ((on_packet env now id packet w).clients c).done ≡ true
      → ((w.clients c).done ≡ true) ⊎ ((c ≡ id) ⊎ (supervisor ≤ℤ (w.clients id).network_rating))
  on_packet_ends now id c packet w real d = (on_packet-Keeps now id packet w real).ended c d
