-- ===== src/Fsd/Broadcast.antt =====
-- fsd/util.go: sending a packet to one client, to the clients in range, and to all.
pub mod Delivered
pub mod Visit
pub mod Ranged
use openfsd.Prelude.{
  ℕ, Bool, true, false, not, ◌||◌, List, [], ◌∷◌, Option, none, some, length, ltb, if◌then◌else◌,
}
use openfsd.Prelude.Bytes.{Bytes, codes, bytes_eq}
use openfsd.Prelude.Int.{pos, ltb_ℤ, eqb_ℤ}
use openfsd.Callsign.Facility.{supervisor}
use openfsd.Packet.Code
use openfsd.Packet.Fields.{get_field}
use openfsd.Fsd.Env.{Env}
use openfsd.Fsd.Client.{Client, send, send_error}
use openfsd.Fsd.PostOffice.{World, Error, modify, search, all_clients, send_to}

module _ (env : Env) where
  -- The callbacks of the broadcasts: the packet goes to a recipient that passes the test.
  unfoldable pub deliver : (Client env → Bool) → Bytes → ℕ → World env → World env
  unfolding modify
  deliver wanted packet found w =
      if wanted (w.clients found) then modify env found (send env packet) w else w

  abbrev pub anyone : Client env → Bool
  anyone c = true

  abbrev pub speaks_velocity : Client env → Bool
  speaks_velocity c = eqb_ℤ c.proto_revision (pos 101)

  abbrev pub is_controller : Client env → Bool
  is_controller c = c.is_atc

  abbrev pub is_supervisor : Client env → Bool
  is_supervisor c = not (ltb_ℤ c.network_rating supervisor)

  unfoldable pub broadcast_ranged : ℕ → Bytes → World env → World env
  broadcast_ranged id packet w = search env id (deliver anyone packet) w

  unfoldable pub broadcast_ranged_velocity : ℕ → Bytes → World env → World env
  broadcast_ranged_velocity id packet w = search env id (deliver speaks_velocity packet) w

  unfoldable pub broadcast_ranged_atc_only : ℕ → Bytes → World env → World env
  broadcast_ranged_atc_only id packet w = search env id (deliver is_controller packet) w

  unfoldable pub broadcast_all : ℕ → Bytes → World env → World env
  broadcast_all id packet w = all_clients env id (deliver anyone packet) w

  unfoldable pub broadcast_all_atc : ℕ → Bytes → World env → World env
  broadcast_all_atc id packet w = all_clients env id (deliver is_controller packet) w

  unfoldable pub broadcast_all_supervisors : ℕ → Bytes → World env → World env
  broadcast_all_supervisors id packet w = all_clients env id (deliver is_supervisor packet) w

  -- An error to the client itself.
  unfoldable pub reply_error : ℕ → ℕ → Bytes → World env → World env
  reply_error id code message w = modify env id (send_error env code message) w

  abbrev pub reply_to_failure : ℕ → World env × Option Error → World env
  reply_to_failure id (w, none) = w
  reply_to_failure id (w, some e) =
      reply_error id Code.no_such_callsign (codes "No such callsign") w

  -- Any error of the send is answered as a missing callsign, also that of a client whose context has
  -- ended.
  unfoldable pub send_direct_or_err : ℕ → Bytes → Bytes → World env → World env
  send_direct_or_err id recipient packet w = reply_to_failure id (send_to env recipient packet w)

  unfoldable pub forward_client_query : ℕ → Bytes → World env → World env
  forward_client_query id packet w =
      let recipient = get_field packet 1 in
      if ltb (length recipient) 2
      then reply_error id Code.no_such_callsign (codes "Invalid recipient") w
      else if bytes_eq recipient (codes "@94835")
      then broadcast_ranged_atc_only id packet w
      else if bytes_eq recipient (codes "@94836")
      then broadcast_ranged id packet w
      else send_direct_or_err id recipient packet w
