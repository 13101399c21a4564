-- ===== src/Fsd/Server/Sent.antt =====
-- fsd/util.go: each broadcast and each direct packet keeps the agreement, the registrations and the
-- contexts.
use openfsd.Prelude.{ℕ, Bool, true, false, Option, none, some, if◌then◌else◌}
use openfsd.Prelude.Bytes.{Bytes}
use openfsd.Fsd.Env.{Env, Laws}
use openfsd.Fsd.Client.{send, queues}
use openfsd.Fsd.PostOffice.{
  World, Error, callsign_does_not_exist, context_done, find, modify, send_to,
}
use openfsd.Fsd.Broadcast.{
  deliver, broadcast_ranged, broadcast_ranged_velocity, broadcast_ranged_atc_only, broadcast_all,
  broadcast_all_atc, broadcast_all_supervisors, send_direct_or_err, reply_to_failure, anyone,
  speaks_velocity, is_controller, is_supervisor,
}
use openfsd.Fsd.Server.Keeps.{Keeps, Keeps-trans, modify-Keeps, send-Same}
use openfsd.Fsd.Server.Walks.{deliver-Keeps, search-Keeps, all_clients-Keeps, reply_error-Keeps}

module _ (env : Env) (laws : Laws env) where
  pub ranged-Keeps :
      (id : ℕ) (p : Bytes) (w : World env) → Keeps env laws id w (broadcast_ranged env id p w)
  unfolding broadcast_ranged
  ranged-Keeps id p w =
      search-Keeps env laws id id (deliver env (anyone env) p) w
        (λ f v. deliver-Keeps env laws id (anyone env) p f v)

  pub velocity-Keeps :
      (id : ℕ) (p : Bytes) (w : World env)
      → Keeps env laws id w (broadcast_ranged_velocity env id p w)
  unfolding broadcast_ranged_velocity
  velocity-Keeps id p w =
      search-Keeps env laws id id (deliver env (speaks_velocity env) p) w
        (λ f v. deliver-Keeps env laws id (speaks_velocity env) p f v)

  pub atc_only-Keeps :
      (id : ℕ) (p : Bytes) (w : World env)
      → Keeps env laws id w (broadcast_ranged_atc_only env id p w)
  unfolding broadcast_ranged_atc_only
  atc_only-Keeps id p w =
      search-Keeps env laws id id (deliver env (is_controller env) p) w
        (λ f v. deliver-Keeps env laws id (is_controller env) p f v)

  pub all-Keeps :
      (id : ℕ) (p : Bytes) (w : World env) → Keeps env laws id w (broadcast_all env id p w)
  unfolding broadcast_all
  all-Keeps id p w =
      all_clients-Keeps env laws id id (deliver env (anyone env) p) w
        (λ f v. deliver-Keeps env laws id (anyone env) p f v)

  pub all_atc-Keeps :
      (id : ℕ) (p : Bytes) (w : World env) → Keeps env laws id w (broadcast_all_atc env id p w)
  unfolding broadcast_all_atc
  all_atc-Keeps id p w =
      all_clients-Keeps env laws id id (deliver env (is_controller env) p) w
        (λ f v. deliver-Keeps env laws id (is_controller env) p f v)

  pub supervisors-Keeps :
      (id : ℕ) (p : Bytes) (w : World env)
      → Keeps env laws id w (broadcast_all_supervisors env id p w)
  unfolding broadcast_all_supervisors
  supervisors-Keeps id p w =
      all_clients-Keeps env laws id id (deliver env (is_supervisor env) p) w
        (λ f v. deliver-Keeps env laws id (is_supervisor env) p f v)

  failure-Keeps :
      (id : ℕ) (w v : World env) (e : Option Error)
      → Keeps env laws id w v
      → Keeps env laws id w (reply_to_failure env id (v, e))
  failure-Keeps id w v none g = g
  failure-Keeps id w v (some e) g = Keeps-trans env laws g (reply_error-Keeps env laws id _ _ v)

  pub direct-Keeps :
      (id : ℕ) (recipient p : Bytes) (w : World env)
      → Keeps env laws id w (send_direct_or_err env id recipient p w)
  unfolding send_direct_or_err send_to
  direct-Keeps id recipient p w = go (find env recipient w)
    where
      go :
          (o : Option ℕ)
          → Keeps env laws id w (
              reply_to_failure env id (elim o [
                | none ↦ (w, some callsign_does_not_exist)
                | some i ↦ (
                  modify env i (send env p) w,
                  if queues env (w.clients i) then none else some context_done,
                )
              ]))
      go none = reply_error-Keeps env laws id _ _ w
      go (some i) =
          failure-Keeps id w (modify env i (send env p) w) _
            (modify-Keeps env laws id i (send env p) w (send-Same env laws p))

  pub either-Keeps :
      (id : ℕ) (w x y : World env) (b : Bool)
      → Keeps env laws id w x
      → Keeps env laws id w y
      → Keeps env laws id w (if b then x else y)
  either-Keeps id w x y true f g = f
  either-Keeps id w x y false f g = g
