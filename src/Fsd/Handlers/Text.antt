-- ===== src/Fsd/Handlers/Text.antt =====
-- fsd/handler.go: text messages, packets that are passed on, deletions, kills and challenges.
use openfsd.Prelude.{
  ℕ, Bool, not, ◌||◌, String, List, [], ◌∷◌, ◌++◌, none, some, any, length, get_or, ltb, ◌==◌,
  if◌then◌else◌,
}
use openfsd.Prelude.Bytes.{Bytes, codes, bytes_eq, crlf}
use openfsd.Prelude.Int.{pos, ltb_ℤ, leb_ℤ}
use openfsd.Callsign.Facility.{supervisor}
use openfsd.Packet.Code
use openfsd.Packet.Fields.{get_field}
use openfsd.Fsd.Env.{Env}
use openfsd.Fsd.Client.{Client, send, cancel, queues}
use openfsd.Fsd.Auth.{response, update_state}
use openfsd.Fsd.PostOffice.{World, modify, find}
use openfsd.Fsd.Broadcast.{
  broadcast_all, broadcast_all_supervisors, broadcast_ranged, broadcast_ranged_atc_only,
  reply_error, send_direct_or_err,
}

-- A `case` with several texts.
abbrev pub is_one_of : Bytes → List String → Bool
is_one_of s texts = any (λ t. bytes_eq s (codes t)) texts

module _ (env : Env) where
  unfoldable pub handle_text_message : ℕ → Bytes → World env → World env
  handle_text_message id packet w =
      let recipient = get_field packet 1 in
      let client = w.clients id in
      if bytes_eq recipient (codes "@49999")
      then (if client.is_atc then broadcast_ranged_atc_only env id packet w else w)
      else if get_or recipient 0 0 == b'@'
      then broadcast_ranged env id packet w
      else if bytes_eq recipient (codes "*S")
      then broadcast_all_supervisors env id packet w
      else if bytes_eq recipient (codes "*")
      then (if ltb_ℤ client.network_rating supervisor then w else broadcast_all env id packet w)
      else if bytes_eq recipient (codes "FP")
      then w
      else if bytes_eq recipient (codes "SERVER")
      then w
      else send_direct_or_err env id recipient packet w

  unfoldable pub handle_delete : ℕ → Bytes → World env → World env
  handle_delete id packet w = modify env id (cancel env) (broadcast_all env id packet w)

  unfoldable pub handle_squawkbox : ℕ → Bytes → World env → World env
  handle_squawkbox id packet w = send_direct_or_err env id (get_field packet 1) packet w

  abbrev open_types : List String
  open_types =
      "VER" ∷ "ID" ∷ "DI" ∷ "IC" ∷ "IK" ∷ "IB" ∷ "IO" ∷ "OC" ∷ "OK" ∷ "OB" ∷ "OO" ∷ "MC" ∷ "MK"
      ∷ "MB" ∷ "MO" ∷ []

  abbrev privileged_types : List String
  privileged_types = "IH" ∷ "SC" ∷ "GD" ∷ "TA" ∷ "FA" ∷ "VT" ∷ "BC" ∷ "HC" ∷ "PT" ∷ "DP" ∷ "ST" ∷ []

  unfoldable pub handle_procontroller : ℕ → Bytes → World env → World env
  handle_procontroller id packet w =
      let client = w.clients id in
      let recipient = get_field packet 1 in
      let pc_type = get_field packet 3 in
      if not client.is_atc
      then w
      else if ltb (length recipient) 2
      then reply_error env id Code.syntax (codes "Invalid recipient") w
      else if is_one_of pc_type open_types
      then send_direct_or_err env id recipient packet w
      else if is_one_of pc_type privileged_types
      then (if leb_ℤ client.facility_type (pos 0)
          then reply_error env id Code.invalid_control (codes "Invalid control") w
          else if get_or recipient 0 0 == b'@'
          then broadcast_ranged_atc_only env id packet w
          else send_direct_or_err env id recipient packet w)
      else w

  -- The request is queued for the METAR service; where the client's context has ended, the `select`
  -- may drop it, as in `send`.
  unfoldable pub handle_metar_request : ℕ → Bytes → World env → World env
  handle_metar_request id packet w =
      if not (bytes_eq (get_field packet 1) (codes "SERVER"))
        || not (bytes_eq (get_field packet 2) (codes "METAR"))
        || not (queues env (w.clients id))
      then w
      else record w { metar_requests = w.metar_requests ++ (id, get_field packet 3) ∷ [] }

  unfoldable pub handle_kill_request : ℕ → Bytes → World env → World env
  handle_kill_request id packet w =
      if ltb_ℤ (w.clients id).network_rating supervisor
      then w
      else elim (find env (get_field packet 1) w) [
        | none ↦ reply_error env id Code.no_such_callsign (codes "No such callsign") w
        | some victim ↦ modify env victim (cancel env) w
      ]

  abbrev pub answer_challenge : Bytes → Client env → Client env
  answer_challenge challenge c =
      let answer = response env.md5 c.auth_state challenge in
      send env (codes "$ZRSERVER:" ++ (c.callsign ++ (codes ":" ++ (answer ++ crlf))))
        (record c { auth_state = update_state env.md5 c.auth_state answer })

  unfoldable pub handle_auth_challenge : ℕ → Bytes → World env → World env
  handle_auth_challenge id packet w =
      if length (w.clients id).client_challenge == 0
      then reply_error env id Code.unauthorized_software
          (codes "Cannot reply to auth challenge since no initial challenge was recieved") w
      else modify env id (answer_challenge (get_field packet 2)) w

  unfoldable pub handle_handoff : ℕ → Bytes → World env → World env
  handle_handoff id packet w =
      if not (w.clients id).is_atc || leb_ℤ (w.clients id).facility_type (pos 1)
      then w
      else send_direct_or_err env id (get_field packet 1) packet w
