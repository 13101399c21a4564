-- ===== src/Fsd/Login/Conn.antt =====
-- fsd/conn.go: handleConn on both sides of the event loop.
use openfsd.Prelude.{
  ℕ, Bool, true, false, not, List, [], ◌∷◌, ◌++◌, Option, none, some, map, take, length, leb, ◌==◌,
  if◌then◌else◌,
}
use openfsd.Prelude.Bytes.{Bytes, codes, crlf, bytes_eq}
use openfsd.Prelude.Int.{pos}
use openfsd.Prelude.Decimal.{print_int}
use openfsd.Callsign.{is_valid_client_callsign}
use openfsd.Packet.Code
use openfsd.Db.Config.{get_welcome_message}
use openfsd.Fsd.Env.{Env}
use openfsd.Fsd.Client.{Client, error_packet}
use openfsd.Fsd.PostOffice.{World, Error, modify, register, release}
use openfsd.Fsd.Broadcast.{broadcast_all}
use openfsd.Fsd.Login.Read.{LoginData, Reading, refused, accepted, read_login_packets}
use openfsd.Fsd.Login.Authenticate.{
  Authentication, denied, granted, Backend, attempt_authentication,
}

abbrev pub server_ident : Bytes
server_ident = codes "$DISERVER:CLIENT:openfsd:6f70656e667364" ++ crlf

-- `strings.Split(s, "\n")`.
abbrev pub push_line : ℕ → List Bytes → List Bytes
push_line c [] = (c ∷ []) ∷ []
push_line c (l ∷ ls) = (c ∷ l) ∷ ls

unfoldable pub split_lines : Bytes → List Bytes
split_lines [] = [] ∷ []
split_lines (c ∷ s) = let rest = split_lines s in if c == 10 then [] ∷ rest else push_line c rest

module _ (env : Env) where
  -- `sendServerTextMessage`'s packet.
  abbrev pub server_text : Client env → Bytes → Bytes
  server_text client message = codes "#TMserver:" ++ (client.callsign ++ (58 ∷ (message ++ crlf)))

  -- The packets of `sendMotd`.
  unfoldable pub motd : Client env → Bytes → List Bytes
  unfolding split_lines
  motd client message =
      if bytes_eq message []
      then server_text client (codes "Connected to openfsd") ∷ []
      else map (server_text client) (split_lines message)

  -- The packets of `broadcastAddPacket` and `broadcastDisconnectPacket`.
  unfoldable pub add_packet : Client env → Bytes
  add_packet c =
      if c.is_atc
      then codes "#AA"
        ++ (c.callsign
            ++ (codes ":SERVER:"
                ++ (c.real_name
                    ++ (58
                        ∷ (print_int c.cid
                            ++ (codes "::"
                                ++ (print_int c.network_rating
                                    ++ (58 ∷ (print_int c.proto_revision ++ crlf)))))))))
      else codes "#AP"
        ++ (c.callsign
            ++ (codes ":SERVER:"
                ++ (print_int c.cid
                    ++ (codes "::"
                        ++ (print_int c.network_rating
                            ++ (58
                                ∷ (print_int c.proto_revision
                                    ++ (codes ":1:" ++ (c.real_name ++ crlf)))))))))

  unfoldable pub disconnect_packet : Client env → Bytes
  disconnect_packet c =
      codes (if c.is_atc then "#DA" else "#DP")
      ++ (c.callsign ++ (codes ":SERVER:" ++ (print_int c.cid ++ crlf)))

  -- `newClient`; the last argument settles the `select` of a later `send`.
  abbrev pub new_client : LoginData → Bytes → Bool → Client env
  new_client d addr late_room = record {
    callsign = d.callsign;
    cid = d.cid;
    real_name = d.real_name;
    network_rating = d.network_rating;
    max_network_rating = d.max_network_rating;
    proto_revision = d.proto_revision;
    login_time = d.login_time;
    client_challenge = d.client_challenge;
    client_id = d.client_id;
    is_atc = d.is_atc;
    lat = env.zero;
    lon = env.zero;
    vis_range = env.zero;
    closest_velocity_client_distance = env.zero;
    flight_plan = [];
    assigned_beacon_code = [];
    frequency = [];
    transponder = [];
    altitude = pos 0;
    groundspeed = pos 0;
    heading = pos 0;
    last_updated = 0;
    facility_type = pos 0;
    auth_state = record { init = []; curr = []; client_id = 0 };
    remote_addr = addr;
    send_fast_enabled = false;
    outbox = [];
    done = false;
    late_room = late_room;
  }

  -- A connection up to its event loop: what was written to its socket, and whether the loop starts.
  pub record Opening : Type 0 where
    pub written : List Bytes
    pub enters : Bool
    pub world : World env

  -- What a new connection brings: its address in the store and on the net, its two login lines,
  -- how many more packets its socket takes before a write fails, and the time. A failed write of an
  -- error packet has no effect, and is not told apart.
  pub record Arrival : Type 0 where
    pub id : ℕ
    pub addr : Bytes
    pub first : Option Bytes
    pub second : Option Bytes
    pub room : ℕ
    pub now : ℕ
    pub late_room : Bool

  abbrev pub turned_away : Option (ℕ × Bytes) → World env → Opening
  turned_away none w = record { written = server_ident ∷ []; enters = false; world = w }
  turned_away (some (code, message)) w = record {
    written = server_ident ∷ error_packet env code message ∷ [];
    enters = false;
    world = w;
  }

  -- Behind the registration: the message of the day, then the add packet to everyone. A failed write
  -- of the message ends the connection, and the deferred call releases the client.
  unfoldable pub welcome : ℕ → ℕ → List Bytes → World env → Opening
  unfolding add_packet
  welcome id room packets w =
      if leb (length packets) room
      then record {
        written = server_ident ∷ packets;
        enters = true;
        world = broadcast_all env id (add_packet (w.clients id)) w;
      }
      else record {
        written = server_ident ∷ take room packets;
        enters = false;
        world = release env id w;
      }

  module _ (backend : Backend) where
    abbrev pub after_register : Arrival → Client env → World env × Option Error → Opening
    after_register a client (w, some e) =
        turned_away (some (Code.callsign_in_use, codes "Callsign already in use")) w
    after_register a client (w, none) =
        welcome a.id a.room (motd client (get_welcome_message backend.settings)) w

    unfoldable pub admit : Arrival → Client env → World env → Opening
    unfolding welcome motd
    admit a client w = after_register a client (register env a.id (modify env a.id (λ _. client) w))

    abbrev pub open_authenticated : Arrival → World env → Authentication env → Opening
    open_authenticated a w (denied e) = turned_away e w
    open_authenticated a w (granted client) = admit a client w

    unfoldable pub open_data : Arrival → LoginData → Bytes → World env → Opening
    unfolding admit
    open_data a d token w =
        if not (is_valid_client_callsign d.callsign)
        then turned_away (some (Code.callsign_invalid, codes "Callsign invalid")) w
        else open_authenticated a w
            (attempt_authentication env backend a.now token (new_client d a.addr a.late_room))

    abbrev pub open_read : Arrival → World env → Reading → Opening
    open_read a w (refused code message) = turned_away (some (code, message)) w
    open_read a w (accepted d token) = open_data a d token w

    -- `handleConn` up to `eventLoop`, with a socket that takes the server's ident.
    unfoldable pub open_conn : Arrival → World env → Opening
    unfolding open_data
    open_conn a w = open_read a w (read_login_packets a.now a.first a.second)

  -- The calls that `handleConn` defers, behind the event loop.
  unfoldable pub close_conn : ℕ → World env → World env
  unfolding disconnect_packet
  close_conn id w = release env id (broadcast_all env id (disconnect_packet (w.clients id)) w)
