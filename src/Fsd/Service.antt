-- ===== src/Fsd/Service.antt =====
-- fsd/http_service.go: the service that the web server asks for the clients online and for kicks.
use openfsd.Prelude.{ℕ, Bool, not, ◌||◌, List, [], ◌∷◌, Option, none, some, if◌then◌else◌}
use openfsd.Prelude.Bytes.{Bytes, codes, bytes_eq, cut_prefix?}
use openfsd.Prelude.Int.{ℤ, ltb_ℤ}
use openfsd.Callsign.Facility.{administrator}
use openfsd.Db.Config.{value, get, jwt_secret_key}
use openfsd.Fsd.Env.{Env}
use openfsd.Fsd.Client.{Client, cancel}
use openfsd.Fsd.Jwt.{CustomClaims, parse_jwt_token}
use openfsd.Fsd.PostOffice.{World, modify, find}
use openfsd.Fsd.Login.Authenticate.{Backend}

abbrev pub service_claims : CustomClaims → Option ℕ
service_claims claims =
    if not (bytes_eq claims.fields.token_type (codes "fsd_service"))
      || ltb_ℤ claims.fields.network_rating administrator
    then some 403
    else none

-- The status of a request that is not let through, or none.
unfoldable pub auth_middleware : Backend → ℕ → Bytes → Option ℕ
auth_middleware backend now header = elim (cut_prefix? header (codes "Bearer ")) [
  | none ↦ some 400
  | some token ↦ elim (get jwt_secret_key backend.settings) [
    | value secret ↦ elim (parse_jwt_token backend.jwt now token secret) [
      | none ↦ some 400
      | some claims ↦ service_claims claims
    ]
    | _ ↦ some 500
  ]
]

module _ (env : Env) where
  -- `OnlineUserPilot` and `OnlineUserATC`.
  pub record General : Type 0 where
    pub callsign : Bytes
    pub cid : ℤ
    pub name : Bytes
    pub network_rating : ℤ
    pub max_network_rating : ℤ
    pub latitude : env.Float
    pub longitude : env.Float
    pub logon_time : ℕ
    pub last_updated : ℕ

  pub record OnlinePilot : Type 0 where
    pub general : General
    pub altitude : ℤ
    pub groundspeed : ℤ
    pub heading : ℤ
    pub transponder : Bytes

  pub record OnlineAtc : Type 0 where
    pub general : General
    pub frequency : Bytes
    pub facility : ℤ
    pub vis_range : ℤ

  pub record OnlineUsers : Type 0 where
    pub pilots : List OnlinePilot
    pub atc : List OnlineAtc

  abbrev pub general_of : Client env → General
  general_of c = record {
    callsign = c.callsign;
    cid = c.cid;
    name = c.real_name;
    network_rating = c.network_rating;
    max_network_rating = c.max_network_rating;
    latitude = c.lat;
    longitude = c.lon;
    logon_time = c.login_time;
    last_updated = c.last_updated;
  }

  abbrev pub atc_of : Client env → OnlineAtc
  atc_of c = record {
    general = general_of c;
    frequency = c.frequency;
    facility = c.facility_type;
    vis_range = env.to_int (env.mul c.vis_range env.miles_per_meter);
  }

  abbrev pub pilot_of : Client env → OnlinePilot
  pilot_of c = record {
    general = general_of c;
    altitude = c.altitude;
    groundspeed = c.groundspeed;
    heading = c.heading;
    transponder = c.transponder;
  }

  abbrev pub with_user : Client env → OnlineUsers → OnlineUsers
  with_user c users =
      if c.is_atc
      then record { pilots = users.pilots; atc = atc_of c ∷ users.atc }
      else record { pilots = pilot_of c ∷ users.pilots; atc = users.atc }

  -- The loop over the copy of the map, whose order Go leaves open.
  unfoldable pub online_of : List (Bytes × ℕ) → World env → OnlineUsers
  online_of [] w = record { pilots = []; atc = [] }
  online_of ((k, c) ∷ m) w = with_user (w.clients c) (online_of m w)

  unfoldable pub handle_get_online_users : World env → OnlineUsers
  unfolding online_of
  handle_get_online_users w = online_of w.client_map w

  -- The handler goes on behind a body that the binding refuses; the first status stands.
  abbrev pub status_of : Bool → ℕ → ℕ
  status_of bound status = if bound then status else 400

  -- Whether the binding took the body, and the callsign that it read.
  unfoldable pub handle_kick_user : Bool → Bytes → World env → World env × ℕ
  handle_kick_user bound callsign w = elim (find env callsign w) [
    | none ↦ (w, status_of bound 404)
    | some id ↦ (modify env id (cancel env) w, status_of bound 204)
  ]
