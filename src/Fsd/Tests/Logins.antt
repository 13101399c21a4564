-- ===== src/Fsd/Tests/Logins.antt =====
-- fsd/conn.go, fsd/metar.go, fsd/postoffice.go: logins, METARs and lookups at concrete inputs.
use openfsd.Prelude.{
  map, length, length-append, ap, ◌≡◌, ◌↔◌, refl, true, false, List, [], ◌∷◌, ◌++◌, none, some,
  arith,
}
use openfsd.Prelude.Bytes.{Bytes, codes, bytes_eq, cut_prefix?, cut_crlf}
use openfsd.Prelude.Int.{ℤ, pos}
use openfsd.Prelude.Decimal.{parse_int}
use openfsd.Callsign.{is_valid_client_callsign}
use openfsd.Db.Users.{User, get_user_by_cid}
use openfsd.Db.Config.{get, select_value, get_welcome_message}
use openfsd.Packet.Fields.{
  count_fields, count_byte, get_field, rebase_times, rebase_to_next_field, index_byte, cut_at,
}
use openfsd.Fsd.Client.{Client}
use openfsd.Fsd.PostOffice.{World, find, lookup, modify, register, calculate_bounding_box}
use openfsd.Fsd.PostOffice.Invariant.{IsRegistered}
use openfsd.Fsd.Jwt.{most_likely_jwt}
use openfsd.Fsd.Login.Read.{
  LoginData, accepted, data_with, read_login_packets, read_ident, read_add_packet,
}
use openfsd.Fsd.Login.Authenticate.{Backend, attempt_authentication, check_rating}
use openfsd.Fsd.Login.Conn.{
  Arrival, add_packet, open_conn, open_data, admit, welcome, motd, split_lines,
}
use openfsd.Fsd.Login.Needs.{MayEnter}
use openfsd.Fsd.Login.Entered.{open_conn-enters_iff}
use openfsd.Fsd.Login.Reached.{open_conn-Reachable}
use openfsd.Fsd.Login.Announced.{read-add_packet}
use openfsd.Fsd.Metar.{
  Fetched, answered, metar_reply, serve_request, Service, Works, takes, answers,
}
use openfsd.Fsd.Metar.Rounds.{asked, pending, open_requests, Runs, none_yet, then_more}
use openfsd.Fsd.Metar.Served.{serve_all_answers}
use mathlib.Core.List.{Permᴰ}
use openfsd.Fsd.Server.Steps.{Reachable, start, next, arrives, arrive}
use openfsd.Fsd.Server.Directory.{replay, find-replay}
use openfsd.Fsd.Tests.{client, nobody, pilot_name}
use openfsd.Fsd.Tests.ListTree.{flat, flat_laws}
use openfsd.Fsd.Tests.Tokens.{plain_jwt}

abbrev pub user : User
user = record {
  cid = pos 7;
  password = codes "pw";
  first_name = some (codes "Joe");
  last_name = none;
  network_rating = pos 3;
}

abbrev pub backend : Backend
backend = record {
  settings = record { rows = ("JWT_SECRET_KEY", codes "s") ∷ []; down = false };
  users = user ∷ [];
  bcrypt = record { hash = λ salt p. some p; verify = bytes_eq };
  jwt = plain_jwt;
  parse_header = λ h. some (codes "HS256", codes "JWT");
}

-- A pilot's two login packets.
abbrev arrival : Arrival flat
arrival = record {
  id = 1;
  addr = codes "127.0.0.1:9";
  first = some (codes "$IDN1:SERVER:88e4:Client:3:2:7:123");
  second = some (codes "#APN1:SERVER:7:pw:1:101:2:Joe");
  room = 5;
  now = 10;
  late_room = false;
}

enters : (open_conn flat backend arrival nobody).enters ≡ true
unfolding open_conn open_data admit register modify lookup read_login_packets read_ident
    count_fields count_byte get_field rebase_times rebase_to_next_field index_byte cut_at cut_crlf
    cut_prefix? bytes_eq parse_int is_valid_client_callsign attempt_authentication most_likely_jwt
    get_user_by_cid check_rating get_welcome_message get select_value welcome motd split_lines
enters = refl

open_conn-enters_iff_example : ((open_conn flat backend arrival nobody).enters ≡ true) ↔ (
    (d : LoginData) × (token : Bytes) × (max : ℤ) × MayEnter flat backend arrival nobody d token
      max)
open_conn-enters_iff_example = open_conn-enters_iff flat backend arrival nobody

open_conn-Reachable_example :
    let o = open_conn flat backend arrival nobody in
    Reachable flat flat_laws o.world
    × (o.enters ≡ true → IsRegistered flat flat_laws o.world 1)
    × (o.enters ≡ false → o.world.client_map ≡ [])
unfolding lookup calculate_bounding_box
open_conn-Reachable_example =
    open_conn-Reachable flat flat_laws backend arrival nobody (start refl refl)
      (λ r. absurd (ground (arith, r))) refl

abbrev pilot : Client flat
pilot = client pilot_name false 10

read-add_packet_example :
    read_add_packet 5 ([], 0) (add_packet flat pilot)
    ≡ accepted (data_with 5 ([], 0) false pilot_name [] (pos 7) (pos 1) (pos 101)) []
unfolding is_valid_client_callsign bytes_eq
read-add_packet_example =
    read-add_packet flat pilot 5 ([], 0) refl tt refl refl (omega arith) (omega arith)

abbrev with_pilot : World flat
with_pilot = arrive flat flat_laws 1 pilot nobody

with_pilot-Reachable : Reachable flat flat_laws with_pilot
unfolding lookup calculate_bounding_box
with_pilot-Reachable =
    next (start refl refl) (arrives 1 pilot (λ r. absurd (ground (arith, r))) refl)

find-replay_example :
    find flat pilot_name with_pilot ≡ replay flat flat_laws with_pilot-Reachable pilot_name
find-replay_example = find-replay flat flat_laws with_pilot with_pilot-Reachable pilot_name

-- Two requests of one client, which two workers answer in the other order.
abbrev asking : Service flat
asking = record {
  world = record nobody { metar_requests = (1, codes "KJFK") ∷ (1, codes "KLAX") ∷ [] };
  busy = [];
}

abbrev answer : Fetched
answer = answered 200 (some (codes "2026/01/01 00:00"))

abbrev served : Service flat
served = record {
  world =
      serve_request flat (1, codes "KJFK") answer
        (serve_request flat (1, codes "KLAX") answer nobody);
  busy = [];
}

-- Behind the first round.
abbrev taken : Service flat
taken = record {
  world = record nobody { metar_requests = (1, codes "KLAX") ∷ [] };
  busy = (1, codes "KJFK") ∷ [];
}

both_served : Runs flat 2 4 asking served
unfolding serve_request modify
both_served = then_more (takes (1, codes "KJFK") ((1, codes "KLAX") ∷ []) refl (omega arith)) (
    then_more (takes (1, codes "KLAX") [] refl (omega arith)) (
      then_more (answers [] ((1, codes "KJFK") ∷ []) (1, codes "KLAX") answer refl)
        (then_more (answers [] [] (1, codes "KJFK") answer refl) none_yet)))

served-stuck : (s : Service flat) → ¬ Works flat 2 served s
unfolding serve_request modify
served-stuck s (takes q rest e room) = absurd (ground (arith, e))
served-stuck s (answers before after q answer e) =
    absurd (omega (arith, ap length e, length-append before (q ∷ after)))

serve_all_answers_example :
    (4 ≡ pending flat asking)
    × (served.world.metar_requests ≡ [])
    × (served.busy ≡ [])
    × ((replied : List (Bytes × Fetched)) × ((served.world.clients 1).outbox
          ≡ [] ++ map (λ r. metar_reply flat pilot_name r.0 r.1) replied)
        × Permᴰ (map (λ r. r.0) replied) (asked 1 (open_requests flat asking)))
serve_all_answers_example =
    serve_all_answers flat 1 2 4 asking served (omega arith) both_served served-stuck refl
