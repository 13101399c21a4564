-- ===== src/Fsd/Server/Queried.antt =====
-- fsd/handler.go: client queries and flight plans keep the agreement, the registrations and the
-- contexts.
use openfsd.Prelude.{ℕ, refl, Option, none, some, length, ◌==◌}
use openfsd.Prelude.Bytes.{Bytes}
use openfsd.Fsd.Env.{Env, Laws}
use openfsd.Fsd.Client.{send}
use openfsd.Fsd.PostOffice.{World, modify}
use openfsd.Fsd.Handlers.Query.{
  atc_reply, plan_reply, amend_reply, handle_client_query_atc_request,
  handle_client_query_ip_request, handle_client_query_flightplan_request, handle_client_query,
  handle_file_flightplan, handle_amend_flightplan,
}
use openfsd.Fsd.Server.Keeps.{Keeps, Keeps-refl, Keeps-trans, modify-Keeps, send-Same}
use openfsd.Fsd.Server.Walks.{reply_error-Keeps}
use openfsd.Fsd.Server.Sent.{either-Keeps, direct-Keeps, all_atc-Keeps}
use openfsd.Fsd.Server.Handled.{forward-Keeps}

module _ (env : Env) (laws : Laws env) where
  -- A packet to one client's channel.
  sent-Keeps :
      (id j : ℕ) (p : Bytes) (w : World env) → Keeps env laws id w (modify env j (send env p) w)
  sent-Keeps id j p w = modify-Keeps env laws id j (send env p) w (send-Same env laws p)

  sent_twice-Keeps :
      (id : ℕ) (p q : Bytes) (w : World env)
      → Keeps env laws id w (modify env id (send env p) (modify env id (send env q) w))
  sent_twice-Keeps id p q w = Keeps-trans env laws (sent-Keeps id id q w) (sent-Keeps id id p _)

  atc_reply-Keeps :
      (id : ℕ) (target : Bytes) (o : Option ℕ) (w : World env)
      → Keeps env laws id w (atc_reply env id target o w)
  unfolding atc_reply
  atc_reply-Keeps id target none w = reply_error-Keeps env laws id _ _ w
  atc_reply-Keeps id target (some t) w = sent-Keeps id id _ w

  plan_reply-Keeps :
      (id : ℕ) (target : Bytes) (o : Option ℕ) (w : World env)
      → Keeps env laws id w (plan_reply env id target o w)
  unfolding plan_reply
  plan_reply-Keeps id target none w = reply_error-Keeps env laws id _ _ w
  plan_reply-Keeps id target (some t) w =
      either-Keeps env laws id w _ _ (length (w.clients t).flight_plan == 0)
        (Keeps-refl env laws id w) (sent_twice-Keeps id _ _ w)

  atc_request-Keeps :
      (id : ℕ) (p : Bytes) (w : World env)
      → Keeps env laws id w (handle_client_query_atc_request env id p w)
  unfolding handle_client_query_atc_request
  atc_request-Keeps id p w =
      search (either-Keeps env laws, reply_error-Keeps env laws, atc_reply-Keeps)

  ip_request-Keeps :
      (id : ℕ) (p : Bytes) (w : World env)
      → Keeps env laws id w (handle_client_query_ip_request env id p w)
  unfolding handle_client_query_ip_request
  ip_request-Keeps id p w = sent-Keeps id id _ w

  plan_request-Keeps :
      (id : ℕ) (p : Bytes) (w : World env)
      → Keeps env laws id w (handle_client_query_flightplan_request env id p w)
  unfolding handle_client_query_flightplan_request
  plan_request-Keeps id p w =
      search
        (either-Keeps env laws, Keeps-refl env laws, reply_error-Keeps env laws, plan_reply-Keeps)

  pub client_query-Keeps :
      (id : ℕ) (p : Bytes) (w : World env) → Keeps env laws id w (handle_client_query env id p w)
  unfolding handle_client_query
  client_query-Keeps id p w =
      search
        (
          either-Keeps env laws,
          Keeps-refl env laws,
          reply_error-Keeps env laws,
          forward-Keeps env laws,
          direct-Keeps env laws,
          atc_request-Keeps,
          ip_request-Keeps,
          plan_request-Keeps,
        )
        depth 12

  planned-Keeps :
      (id j : ℕ) (info : Bytes) (w : World env)
      → Keeps env laws id w (modify env j (λ k. record k { flight_plan = info }) w)
  planned-Keeps id j info w =
      modify-Keeps env laws id j (λ k. record k { flight_plan = info }) w
        (λ k. record {
          placed = record { callsign_eq = refl; box_same = refl; rating_eq = refl };
          done_eq = refl;
        })

  pub file_flightplan-Keeps :
      (id : ℕ) (p : Bytes) (w : World env) → Keeps env laws id w (handle_file_flightplan env id p w)
  unfolding handle_file_flightplan
  file_flightplan-Keeps id p w =
      Keeps-trans env laws (planned-Keeps id id _ w) (all_atc-Keeps env laws id _ _)

  amend_reply-Keeps :
      (id : ℕ) (target info : Bytes) (o : Option ℕ) (w : World env)
      → Keeps env laws id w (amend_reply env id target info o w)
  unfolding amend_reply
  amend_reply-Keeps id target info none w = reply_error-Keeps env laws id _ _ w
  amend_reply-Keeps id target info (some t) w =
      Keeps-trans env laws (planned-Keeps id t info w) (all_atc-Keeps env laws id _ _)

  pub amend_flightplan-Keeps :
      (id : ℕ) (p : Bytes) (w : World env)
      → Keeps env laws id w (handle_amend_flightplan env id p w)
  unfolding handle_amend_flightplan
  amend_flightplan-Keeps id p w =
      search (either-Keeps env laws, Keeps-refl env laws, amend_reply-Keeps)
