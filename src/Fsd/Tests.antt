-- ===== src/Fsd/Tests.antt =====
-- fsd/postoffice.go, fsd/util.go: runs at concrete inputs.
pub mod ListTree
pub mod Tokens
mod Packets
pub mod Logins
use openfsd.Prelude.{
  ℕ, ◌+◌, ◌≡◌, ◌≢◌, refl, Bool, true, false, List, [], ◌∷◌, ◌++◌, Option, none, some, arith, ◌==◌,
  if◌then◌else◌,
}
use openfsd.Prelude.Bytes.{Bytes, codes, bytes_eq}
use openfsd.Prelude.Int.{ℤ, pos}
use openfsd.Fsd.Env.{Env, Laws, Box, box_eq}
use openfsd.Fsd.Client.{Client, send}
use openfsd.Fsd.PostOffice.{
  World, Error, lookup, modify, register, release, update_position, find, box_of,
  calculate_bounding_box,
}
use openfsd.Fsd.PostOffice.Invariant.{IsConsistent, IsRegistered}
use openfsd.Fsd.PostOffice.Register.{register-IsConsistent, register-find}
use openfsd.Fsd.PostOffice.Release.{release-IsConsistent, release-find}
use openfsd.Fsd.PostOffice.Move.{update_position-IsConsistent}
use openfsd.Fsd.Broadcast.{
  broadcast_ranged, broadcast_ranged_velocity, broadcast_ranged_atc_only, anyone, speaks_velocity,
  is_controller,
}
use openfsd.Fsd.Broadcast.Ranged.{broadcasts_ranged_reach, Reaches}
use openfsd.Fsd.Tests.ListTree.{flat, flat_laws, copies}

abbrev pub client : Bytes → Bool → ℕ → Client flat
client callsign is_atc lat = record {
  callsign = callsign;
  cid = pos 7;
  real_name = [];
  network_rating = pos 1;
  max_network_rating = pos 1;
  proto_revision = pos 101;
  login_time = 0;
  client_challenge = [];
  client_id = 1;
  is_atc = is_atc;
  lat = lat;
  lon = 10;
  vis_range = 3;
  closest_velocity_client_distance = 0;
  flight_plan = [];
  assigned_beacon_code = [];
  frequency = [];
  transponder = [];
  altitude = pos 0;
  groundspeed = pos 0;
  heading = pos 0;
  last_updated = 0;
  facility_type = pos 0;
  auth_state = record { init = []; curr = []; client_id = 0 };
  remote_addr = codes "127.0.0.1:6809";
  send_fast_enabled = false;
  outbox = [];
  done = false;
  late_room = false;
}

abbrev pub pilot_name : Bytes
pilot_name = codes "N1"

abbrev pub tower_name : Bytes
tower_name = codes "TWR"

-- Client 1 is a pilot, and any other a controller near it.
abbrev pub people : ℕ → Client flat
people n = if n == 1 then client pilot_name false 10 else client tower_name true 12

abbrev pub nobody : World flat
nobody = record { clients = people; client_map = []; tree = []; metar_requests = [] }

nobody-IsConsistent : IsConsistent flat flat_laws nobody
unfolding lookup copies
nobody-IsConsistent = record {
  keyed = λ k id h. absurd (ground arith);
  held = λ id h. absurd (ground arith);
  absent = λ id h. refl;
}

abbrev pub one_pilot : World flat
one_pilot = (register flat 1 nobody).0

one_pilot-IsConsistent : IsConsistent flat flat_laws one_pilot
unfolding calculate_bounding_box
one_pilot-IsConsistent = register-IsConsistent flat flat_laws 1 nobody nobody-IsConsistent refl

abbrev pub both : World flat
both = (register flat 2 one_pilot).0

pub both-IsConsistent : IsConsistent flat flat_laws both
unfolding calculate_bounding_box register lookup bytes_eq
both-IsConsistent = register-IsConsistent flat flat_laws 2 one_pilot one_pilot-IsConsistent refl

broadcasts_ranged_reach_example :
    Reaches flat flat_laws
      (anyone flat)
      (codes "hi")
      both
      (broadcast_ranged flat 1 (codes "hi") both)
      1
      2
    × Reaches flat flat_laws
        (speaks_velocity flat)
        (codes "hi")
        both
        (broadcast_ranged_velocity flat 1 (codes "hi") both)
        1
        2
    × Reaches flat flat_laws
        (is_controller flat)
        (codes "hi")
        both
        (broadcast_ranged_atc_only flat 1 (codes "hi") both)
        1
        2
unfolding register lookup bytes_eq
broadcasts_ranged_reach_example =
    broadcasts_ranged_reach flat flat_laws both 1 2 (codes "hi") both-IsConsistent refl
      (omega arith)
