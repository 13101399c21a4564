-- ===== src/Fsd/Server/Walks.antt =====
-- fsd/postoffice.go: the walks over the clients keep what their callback keeps.
use openfsd.Prelude.{ℕ, refl, Bool, List, [], ◌∷◌, ◌==◌}
use openfsd.Prelude.Bytes.{Bytes}
use openfsd.Fsd.Env.{Env, Laws}
use openfsd.Fsd.Client.{Client, send, send_error}
use openfsd.Fsd.PostOffice.{
  World, distance, box_of, note_distance, visit, search, each, all_clients,
}
use openfsd.Fsd.Broadcast.{deliver, reply_error}
use openfsd.Fsd.Server.Keeps.{
  Keeps, Same, Keeps-refl, Keeps-trans, if-Keeps, modify-Keeps, send-Same,
}

module _ (env : Env) (laws : Laws env) where
  pub deliver-Keeps :
      (id : ℕ) (wanted : Client env → Bool) (p : Bytes) (found : ℕ) (w : World env)
      → Keeps env laws id w (deliver env wanted p found w)
  unfolding deliver
  deliver-Keeps id wanted p found w =
      if-Keeps env laws (wanted (w.clients found))
        (λ h. modify-Keeps env laws id found (send env p) w (send-Same env laws p))
        (λ h. Keeps-refl env laws id w)

  distance-Same :
      (d : env.Float) (k : Client env)
      → Same env laws k (record k { closest_velocity_client_distance = d })
  distance-Same d k = record {
    placed = record { callsign_eq = refl; box_same = refl; rating_eq = refl };
    done_eq = refl;
  }

  note_distance-Keeps :
      (id me found : ℕ) (w : World env) → Keeps env laws id w (note_distance env me found w)
  unfolding note_distance
  note_distance-Keeps id me found w =
      let c = w.clients me in
      let f = w.clients found in
      let d = distance env c.lat c.lon f.lat f.lon in
      if-Keeps env laws _
        (λ h.
          modify-Keeps env laws id me (λ k. record k { closest_velocity_client_distance = d }) w
            (distance-Same d))
        (λ h. Keeps-refl env laws id w)

  -- The walks keep what their callback keeps.
  visit-Keeps :
      (id me : ℕ) (callback : ℕ → World env → World env) (found : List ℕ) (w : World env)
      → ((f : ℕ) (v : World env) → Keeps env laws id v (callback f v))
      → Keeps env laws id w (visit env me callback found w)
  unfolding visit
  visit-Keeps id me callback [] w k = Keeps-refl env laws id w
  visit-Keeps id me callback (f ∷ found) w k =
      Keeps-trans env laws
        (if-Keeps env laws (f == me) (λ h. Keeps-refl env laws id w)
          (λ h.
            Keeps-trans env laws (note_distance-Keeps id me f w) (k f (note_distance env me f w))))
        (visit-Keeps id me callback found _ k)

  pub search-Keeps :
      (id me : ℕ) (callback : ℕ → World env → World env) (w : World env)
      → ((f : ℕ) (v : World env) → Keeps env laws id v (callback f v))
      → Keeps env laws id w (search env me callback w)
  unfolding search
  search-Keeps id me callback w k =
      Keeps-trans env laws
        (modify-Keeps env laws id me
          (λ c. record c { closest_velocity_client_distance = env.max_float }) w
          (distance-Same env.max_float))
        (visit-Keeps id me callback (env.search (box_of env (w.clients me)) w.tree) _ k)

  each-Keeps :
      (id me : ℕ) (callback : ℕ → World env → World env) (m : List (Bytes × ℕ)) (w : World env)
      → ((f : ℕ) (v : World env) → Keeps env laws id v (callback f v))
      → Keeps env laws id w (each env me callback m w)
  unfolding each
  each-Keeps id me callback [] w k = Keeps-refl env laws id w
  each-Keeps id me callback ((j, c) ∷ m) w k =
      Keeps-trans env laws
        (if-Keeps env laws (c == me) (λ h. Keeps-refl env laws id w) (λ h. k c w))
        (each-Keeps id me callback m _ k)

  pub all_clients-Keeps :
      (id me : ℕ) (callback : ℕ → World env → World env) (w : World env)
      → ((f : ℕ) (v : World env) → Keeps env laws id v (callback f v))
      → Keeps env laws id w (all_clients env me callback w)
  unfolding all_clients
  all_clients-Keeps id me callback w k = each-Keeps id me callback w.client_map w k

  pub reply_error-Keeps :
      (id code : ℕ) (message : Bytes) (w : World env)
      → Keeps env laws id w (reply_error env id code message w)
  unfolding reply_error send_error
  reply_error-Keeps id code message w =
      modify-Keeps env laws id id (send_error env code message) w (send-Same env laws _)
