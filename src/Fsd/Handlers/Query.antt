-- ===== src/Fsd/Handlers/Query.antt =====
-- fsd/handler.go: client queries, to the server and to other clients; the packets of fsd/util.go that
-- answer them.
use openfsd.Prelude.{
  ℕ, Bool, true, false, not, ◌||◌, String, List, [], ◌∷◌, ◌++◌, Option, none, some, length, ◌==◌,
  if◌then◌else◌,
}
use openfsd.Prelude.Bytes.{Bytes, codes, bytes_eq, crlf, cut_crlf}
use openfsd.Prelude.Int.{pos, ltb_ℤ, leb_ℤ}
use openfsd.Callsign.Facility.{supervisor}
use openfsd.Packet.Code
use openfsd.Packet.Fields.{colon, get_field, count_fields, cut_at, rebase_times}
use openfsd.Packet.Types.{PacketType, flight_plan, client_query_response, get_packet_type}
use openfsd.Fsd.Env.{Env}
use openfsd.Fsd.Client.{send}
use openfsd.Fsd.PostOffice.{World, modify, find}
use openfsd.Fsd.Broadcast.{reply_error, send_direct_or_err, forward_client_query, broadcast_all_atc}
use openfsd.Fsd.Handlers.Text.{is_one_of}

abbrev pub build_flightplan_packet : Bytes → Bytes → Bytes
build_flightplan_packet prefix info = prefix ++ (info ++ crlf)

unfoldable pub build_file_flightplan_packet : Bytes → Bytes → Bytes → Bytes
build_file_flightplan_packet source recipient info =
    build_flightplan_packet (codes "$FP" ++ (source ++ colon ∷ (recipient ++ colon ∷ []))) info

unfoldable pub build_amend_flightplan_packet : Bytes → Bytes → Bytes → Bytes → Bytes
build_amend_flightplan_packet source recipient target info =
    build_flightplan_packet
      (codes "$AM" ++ (source ++ colon ∷ (recipient ++ colon ∷ (target ++ colon ∷ [])))) info

unfoldable pub build_beacon_code_packet : Bytes → Bytes → Bytes → Bytes → Bytes
build_beacon_code_packet source recipient target beacon =
    codes "#PC"
    ++ (source ++ colon ∷ (recipient ++ (codes ":CCP:BC:" ++ (target ++ colon ∷ (beacon ++ crlf)))))

-- The number of fields before a flight plan's own.
abbrev plan_fields : Option PacketType → ℕ
plan_fields (some flight_plan) = 2
plan_fields _ = 3

unfoldable pub extract_flightplan_info_section : Bytes → Bytes
extract_flightplan_info_section packet =
    cut_crlf (rebase_times (plan_fields (get_packet_type packet)) packet)

-- A beacon code that was not assigned is sent as 0.
abbrev or_zero : Bytes → Bytes
or_zero [] = codes "0"
or_zero (c ∷ s) = c ∷ s

abbrev is_response : Option PacketType → Bool
is_response (some client_query_response) = true
is_response _ = false

module _ (env : Env) where
  abbrev atc_answer : Bytes → Bytes → Bool → Bytes
  atc_answer callsign target active =
      codes "$CRSERVER:"
      ++ (callsign ++ (codes (if active then ":ATC:Y:" else ":ATC:N:") ++ (target ++ crlf)))

  -- The answers that need a client found.
  unfoldable pub atc_reply : ℕ → Bytes → Option ℕ → World env → World env
  atc_reply id target none w = reply_error env id Code.no_such_callsign (codes "No such callsign") w
  atc_reply id target (some t) w =
      modify env id
        (send env
          (atc_answer (w.clients id).callsign target (ltb_ℤ (pos 0) (w.clients t).facility_type)))
        w

  unfoldable pub plan_reply : ℕ → Bytes → Option ℕ → World env → World env
  plan_reply id target none w =
      reply_error env id Code.no_such_callsign (codes "No such callsign: " ++ target) w
  plan_reply id target (some t) w =
      let k = w.clients t in
      if length k.flight_plan == 0
      then w
      else modify env id
          (send env (
            build_beacon_code_packet (codes "server") (w.clients id).callsign target
              (or_zero k.assigned_beacon_code)))
          (modify env id (send env (build_file_flightplan_packet target (codes "*A") k.flight_plan))
            w)

  unfoldable pub amend_reply : ℕ → Bytes → Bytes → Option ℕ → World env → World env
  amend_reply id target info none w =
      reply_error env id Code.no_such_callsign (codes "No such callsign: " ++ target) w
  amend_reply id target info (some t) w =
      broadcast_all_atc env id
        (build_amend_flightplan_packet (w.clients id).callsign (codes "*A") target info)
        (modify env t (λ k. record k { flight_plan = info }) w)

  unfoldable pub handle_client_query_atc_request : ℕ → Bytes → World env → World env
  handle_client_query_atc_request id packet w =
      if not (count_fields packet == 4)
      then reply_error env id Code.syntax (codes "Invalid ATC request") w
      else let target = get_field packet 3 in atc_reply id target (find env target w) w

  unfoldable pub handle_client_query_ip_request : ℕ → Bytes → World env → World env
  handle_client_query_ip_request id packet w =
      let c = w.clients id in
      modify env id
        (send env (
          codes "$CRSERVER:"
          ++ (c.callsign ++ (codes ":IP:" ++ (cut_at colon c.remote_addr ++ crlf)))))
        w

  unfoldable pub handle_client_query_flightplan_request : ℕ → Bytes → World env → World env
  handle_client_query_flightplan_request id packet w =
      let c = w.clients id in
      if not c.is_atc
      then w
      else if not (count_fields packet == 4)
      then reply_error env id Code.syntax (codes "Invalid flightplan request syntax") w
      else let target = get_field packet 3 in plan_reply id target (find env target w) w

  abbrev atc_queries : List String
  atc_queries = "BY" ∷ "HI" ∷ "HLP" ∷ "NOHLP" ∷ "WH" ∷ "NEWATIS" ∷ "NEWINFO" ∷ []

  abbrev privileged_queries : List String
  privileged_queries =
      "IT" ∷ "DR" ∷ "HT" ∷ "TA" ∷ "FA" ∷ "BC" ∷ "SC" ∷ "VT" ∷ "EST" ∷ "GD" ∷ "IPC" ∷ []

  abbrev open_queries : List String
  open_queries = "ACC" ∷ "CAPS" ∷ "C?" ∷ "RN" ∷ "ATIS" ∷ "SV" ∷ []

  abbrev refuse : ℕ → World env → World env
  refuse id w = reply_error env id Code.invalid_control (codes "Invalid control") w

  -- The queries to SERVER.
  abbrev server_query : Bytes → ℕ → Bytes → World env → World env
  server_query query_type id packet w =
      if bytes_eq query_type (codes "ATC")
      then handle_client_query_atc_request id packet w
      else if bytes_eq query_type (codes "IP")
      then handle_client_query_ip_request id packet w
      else if bytes_eq query_type (codes "FP")
      then handle_client_query_flightplan_request id packet w
      else w

  unfoldable pub handle_client_query : ℕ → Bytes → World env → World env
  handle_client_query id packet w =
      let recipient = get_field packet 1 in
      let query_type = get_field packet 2 in
      let c = w.clients id in
      if bytes_eq recipient (codes "SERVER")
      then server_query query_type id packet w
      else if is_one_of query_type atc_queries
      then (if not c.is_atc then refuse id w else forward_client_query env id packet w)
      else if is_one_of query_type privileged_queries
      then (if not c.is_atc || leb_ℤ c.facility_type (pos 0)
          then refuse id w
          else forward_client_query env id packet w)
      else if is_one_of query_type open_queries
      then forward_client_query env id packet w
      else if bytes_eq query_type (codes "INF")
      then (if is_response (get_packet_type packet)
          then send_direct_or_err env id recipient packet w
          else if ltb_ℤ c.network_rating supervisor
          then refuse id w
          else forward_client_query env id packet w)
      else w

  unfoldable pub handle_file_flightplan : ℕ → Bytes → World env → World env
  handle_file_flightplan id packet w =
      let info = extract_flightplan_info_section packet in
      broadcast_all_atc env id
        (build_file_flightplan_packet (w.clients id).callsign (codes "*A") info)
        (modify env id (λ c. record c { flight_plan = info }) w)

  unfoldable pub handle_amend_flightplan : ℕ → Bytes → World env → World env
  handle_amend_flightplan id packet w =
      let c = w.clients id in
      if not c.is_atc || leb_ℤ c.facility_type (pos 0)
      then w
      else let info = extract_flightplan_info_section packet in
        let target = get_field packet 2 in amend_reply id target info (find env target w) w
