-- ===== src/Fsd/Server/Handled.antt =====
-- fsd/util.go and fsd/handler.go: each broadcast and each handler keeps the agreement, the
-- registrations and the contexts.
use openfsd.Prelude.{ℕ, inl, inr, refl, List, Option, none, some, arith, length, ◌==◌}
use openfsd.Prelude.Bytes.{Bytes, codes}
use openfsd.Prelude.Int.{ltb_ℤ, ◌≤ℤ◌}
use openfsd.Callsign.Facility.{supervisor}
use openfsd.Packet.Code
use openfsd.Fsd.Auth.{response, update_state}
use openfsd.Packet.Fields.{get_field}
use openfsd.Fsd.Env.{Env, Laws}
use openfsd.Fsd.Client.{Client, cancel}
use openfsd.Fsd.PostOffice.{World, find, modify}
use openfsd.Fsd.Broadcast.{reply_error, forward_client_query}
use openfsd.Fsd.Handlers.Text.{
  answer_challenge, handle_text_message, handle_delete, handle_squawkbox, handle_procontroller,
  handle_metar_request, handle_kill_request, handle_auth_challenge, handle_handoff,
}
use openfsd.Fsd.Server.Keeps.{
  Keeps, Same, Keeps-refl, Keeps-trans, if-Keeps, modify-Keeps, cancel-Keeps, send-Same,
}
use openfsd.Fsd.Server.Walks.{reply_error-Keeps}
use openfsd.Fsd.Server.Sent.{
  either-Keeps, atc_only-Keeps, ranged-Keeps, direct-Keeps, supervisors-Keeps, all-Keeps,
}

module _ (env : Env) (laws : Laws env) where
  pub forward-Keeps :
      (id : ℕ) (p : Bytes) (w : World env) → Keeps env laws id w (forward_client_query env id p w)
  unfolding forward_client_query
  forward-Keeps id p w = search (
    either-Keeps env laws,
    reply_error-Keeps env laws,
    atc_only-Keeps env laws,
    ranged-Keeps env laws,
    direct-Keeps env laws,
  )

  pub text_message-Keeps :
      (id : ℕ) (p : Bytes) (w : World env) → Keeps env laws id w (handle_text_message env id p w)
  unfolding handle_text_message
  text_message-Keeps id p w =
      search
        (
          either-Keeps env laws,
          Keeps-refl env laws,
          atc_only-Keeps env laws,
          ranged-Keeps env laws,
          supervisors-Keeps env laws,
          all-Keeps env laws,
          direct-Keeps env laws,
        )
        depth 9

  pub delete-Keeps :
      (id : ℕ) (p : Bytes) (w : World env) → Keeps env laws id w (handle_delete env id p w)
  unfolding handle_delete
  delete-Keeps id p w =
      Keeps-trans env laws (all-Keeps env laws id p w) (cancel-Keeps env laws id id _ (inl refl))

  pub squawkbox-Keeps :
      (id : ℕ) (p : Bytes) (w : World env) → Keeps env laws id w (handle_squawkbox env id p w)
  unfolding handle_squawkbox
  squawkbox-Keeps id p w = direct-Keeps env laws id (get_field p 1) p w

  pub procontroller-Keeps :
      (id : ℕ) (p : Bytes) (w : World env) → Keeps env laws id w (handle_procontroller env id p w)
  unfolding handle_procontroller
  procontroller-Keeps id p w =
      search
        (
          either-Keeps env laws,
          Keeps-refl env laws,
          reply_error-Keeps env laws,
          atc_only-Keeps env laws,
          direct-Keeps env laws,
        )
        depth 9

  queued-Keeps :
      (id : ℕ) (w : World env) (queue : List (ℕ × Bytes))
      → Keeps env laws id w (record w { metar_requests = queue })
  queued-Keeps id w queue = record {
    consistent = λ ok reg. record { keyed = ok.keyed; held = ok.held; absent = ok.absent };
    registered = λ c reg. reg;
    ended = λ c d. inl d;
    rated = refl;
    listed = refl;
  }

  pub metar-Keeps :
      (id : ℕ) (p : Bytes) (w : World env) → Keeps env laws id w (handle_metar_request env id p w)
  unfolding handle_metar_request
  metar-Keeps id p w = search (either-Keeps env laws, Keeps-refl env laws, queued-Keeps)

  victim-Keeps :
      (id : ℕ) (w : World env) (o : Option ℕ)
      → supervisor ≤ℤ (w.clients id).network_rating
      → Keeps env laws id w (elim o [
        | none ↦ reply_error env id Code.no_such_callsign (codes "No such callsign") w
        | some victim ↦ modify env victim (cancel env) w
      ])
  victim-Keeps id w none may = reply_error-Keeps env laws id _ _ w
  victim-Keeps id w (some victim) may = cancel-Keeps env laws id victim w (inr may)

  pub kill-Keeps :
      (id : ℕ) (p : Bytes) (w : World env) → Keeps env laws id w (handle_kill_request env id p w)
  unfolding handle_kill_request
  kill-Keeps id p w =
      if-Keeps env laws (ltb_ℤ (w.clients id).network_rating supervisor)
        (λ h. Keeps-refl env laws id w)
        (λ h. victim-Keeps id w (find env (get_field p 1) w) (ground arith))

  answer_challenge-Same :
      (challenge : Bytes) (k : Client env) → Same env laws k (answer_challenge env challenge k)
  answer_challenge-Same challenge k =
      let s = send-Same env laws _ (record k {
        auth_state = update_state env.md5 k.auth_state (response env.md5 k.auth_state challenge);
      }) in
      record {
        placed = record {
          callsign_eq = s.placed.callsign_eq;
          box_same = s.placed.box_same;
          rating_eq = s.placed.rating_eq;
        };
        done_eq = s.done_eq;
      }

  pub auth_challenge-Keeps :
      (id : ℕ) (p : Bytes) (w : World env) → Keeps env laws id w (handle_auth_challenge env id p w)
  unfolding handle_auth_challenge
  auth_challenge-Keeps id p w =
      either-Keeps env laws id w _ _ (length (w.clients id).client_challenge == 0)
        (reply_error-Keeps env laws id _ _ w)
        (modify-Keeps env laws id id (answer_challenge env (get_field p 2)) w
          (answer_challenge-Same (get_field p 2)))

  pub handoff-Keeps :
      (id : ℕ) (p : Bytes) (w : World env) → Keeps env laws id w (handle_handoff env id p w)
  unfolding handle_handoff
  handoff-Keeps id p w = search (either-Keeps env laws, Keeps-refl env laws, direct-Keeps env laws)
