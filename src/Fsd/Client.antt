-- ===== src/Fsd/Client.antt =====
-- fsd/client.go: a client's state and its outbound packets.
use openfsd.Prelude.{ℕ, Bool, true, not, ◌||◌, List, [], ◌∷◌, ◌++◌, if◌then◌else◌}
use openfsd.Prelude.Bytes.{Bytes, codes, crlf}
use openfsd.Prelude.Decimal.{print_nat}
use openfsd.Prelude.Int.{ℤ}
use openfsd.Fsd.Env.{Env}

-- `vatsimAuthState`.
pub record AuthState : Type 0 where
  pub init : Bytes
  pub curr : Bytes
  pub client_id : ℕ

-- The fields of `Client` and of its `loginData`. `outbox` is what was put into the send channel, in
-- order, the packets that the sender has written since included; a full channel makes the server
-- wait, which this list does not show. `done` says that the client's context has ended, and
-- `late_room` which way the `select` of `send` goes when the context has ended and the channel has
-- room too.
pub record Client (env : Env) : Type 0 where
  pub callsign : Bytes
  pub cid : ℤ
  pub real_name : Bytes
  pub network_rating : ℤ
  pub max_network_rating : ℤ
  pub proto_revision : ℤ
  pub login_time : ℕ
  pub client_challenge : Bytes
  pub client_id : ℕ
  pub is_atc : Bool
  pub lat : env.Float
  pub lon : env.Float
  pub vis_range : env.Float
  pub closest_velocity_client_distance : env.Float
  pub flight_plan : Bytes
  pub assigned_beacon_code : Bytes
  pub frequency : Bytes
  pub transponder : Bytes
  pub altitude : ℤ
  pub groundspeed : ℤ
  pub heading : ℤ
  pub last_updated : ℕ
  pub facility_type : ℤ
  pub auth_state : AuthState
  pub remote_addr : Bytes
  pub send_fast_enabled : Bool
  pub outbox : List Bytes
  pub done : Bool
  pub late_room : Bool

module _ (env : Env) where
  -- Whether `send` queues its packet rather than return the context's error.
  abbrev pub queues : Client env → Bool
  queues c = not c.done || c.late_room

  unfoldable pub send : Bytes → Client env → Client env
  send packet c = if queues c then record c { outbox = c.outbox ++ packet ∷ [] } else c

  abbrev pub error_packet : ℕ → Bytes → Bytes
  error_packet code message =
      codes "$ERserver:unknown:" ++ (print_nat code ++ (codes "::" ++ (message ++ crlf)))

  unfoldable pub send_error : ℕ → Bytes → Client env → Client env
  unfolding send
  send_error code message c = send (error_packet code message) c

  unfoldable pub cancel : Client env → Client env
  cancel c = record c { done = true }
