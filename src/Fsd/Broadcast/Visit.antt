-- ===== src/Fsd/Broadcast/Visit.antt =====
-- fsd/postoffice.go, fsd/util.go: what a walk over found clients puts into each client's channel.
use openfsd.Prelude.{
  ℕ, ◌≢◌, refl, sym, ap, ◌∙◌, Bool, true, false, ◌&&◌, not, List, [], ◌∷◌, ◌++◌, ◌==◌,
  if◌then◌else◌, Bool-cases, inl, inr,
}
use mathlib.Core.List.{append-nil}
use openfsd.Prelude.Bytes.{Bytes}
use openfsd.Prelude.Int.{pos, eqb_ℤ}
use openfsd.Fsd.Env.{Env, count}
use openfsd.Fsd.Client.{Client, queues}
use openfsd.Fsd.PostOffice.{World, modify, distance, note_distance, visit}
use openfsd.Fsd.Broadcast.{deliver}
use openfsd.Fsd.Broadcast.Delivered.{
  IsSteady, takes, Gains, Gains-none, Gains-trans, Gains-to, deliver-Gains, got, got_none, got_add,
  found_ne,
}

module _ (env : Env) where
  noted-Gains :
      (wanted : Client env → Bool) (b : Bool) (d : env.Float) (k : Client env)
      → IsSteady env wanted
      → Gains env wanted k (if b then record k { closest_velocity_client_distance = d } else k) []
  noted-Gains wanted true d k steady = record {
    outbox_eq = sym (append-nil k.outbox);
    takes_eq = ap (λ x. x && queues env k) (steady.after_distance d k);
  }
  noted-Gains wanted false d k steady = Gains-none env wanted k

  if-Gains :
      (wanted : Client env → Bool) (b : Bool) (w w' : World env) (c : ℕ)
      → Gains env wanted (w.clients c) (w'.clients c) []
      → Gains env wanted (w.clients c) ((if b then w' else w).clients c) []
  if-Gains wanted true w w' c g = g
  if-Gains wanted false w w' c g = Gains-none env wanted (w.clients c)

  pub note_distance-Gains :
      (wanted : Client env → Bool) (id found : ℕ) (w : World env) (c : ℕ)
      → IsSteady env wanted
      → Gains env wanted (w.clients c) ((note_distance env id found w).clients c) []
  unfolding note_distance modify
  note_distance-Gains wanted id found w c steady =
      let k = w.clients id in
      let f = w.clients found in
      let d = distance env k.lat k.lon f.lat f.lon in
      if-Gains wanted
        (not k.is_atc
          && eqb_ℤ k.proto_revision (pos 101)
          && eqb_ℤ f.proto_revision (pos 101)
          && env.lt d k.closest_velocity_client_distance)
        w (modify env id (λ k. record k { closest_velocity_client_distance = d }) w) c
        (noted-Gains wanted (c == id) d (w.clients c) steady)

  abbrev met : (Client env → Bool) → Bytes → ℕ → ℕ → World env → World env
  met wanted p id found w =
      if found == id then w else deliver env wanted p found (note_distance env id found w)

  met-Gains :
      (wanted : Client env → Bool) (p : Bytes) (id found : ℕ) (w : World env) (c : ℕ)
      → IsSteady env wanted
      → c ≢ id
      → Gains env wanted
          (w.clients c)
          ((met wanted p id found w).clients c)
          (got env (takes env wanted (w.clients c)) (if found == c then 1 else 0) p)
  met-Gains wanted p id found w c steady ne =
      let t = takes env wanted (w.clients c) in
      let noted = note_distance-Gains wanted id found w c steady in
      elim (Bool-cases (found == id)) [
        | inl e ↦
            Gains-to env
              (ap
                (λ b.
                  (if b
                      then w
                      else deliver env wanted p found (note_distance env id found w)).clients
                    c)
                (sym e))
              (sym (
                ap (λ b. got env t (if b then 1 else 0) p) (found_ne env found c id e ne)
                ∙ got_none env t p))
              (Gains-none env wanted (w.clients c))
        | inr e ↦
            Gains-to env
              (ap
                (λ b.
                  (if b
                      then w
                      else deliver env wanted p found (note_distance env id found w)).clients
                    c)
                (sym e))
              (ap (λ b. got env b (if found == c then 1 else 0) p) noted.takes_eq)
              (Gains-trans env wanted _ _ _ _ _ noted
                (deliver-Gains env wanted p found (note_distance env id found w) c steady))
      ]

  -- The walk of a broadcast gives a client the packet as often as the client is listed.
  pub visit-Gains :
      (wanted : Client env → Bool) (p : Bytes) (id : ℕ) (found : List ℕ) (w : World env) (c : ℕ)
      → IsSteady env wanted
      → c ≢ id
      → Gains env wanted
          (w.clients c)
          ((visit env id (deliver env wanted p) found w).clients c)
          (got env (takes env wanted (w.clients c)) (count c found) p)
  unfolding visit
  visit-Gains wanted p id [] w c steady ne =
      Gains-to env refl (sym (got_none env (takes env wanted (w.clients c)) p))
        (Gains-none env wanted (w.clients c))
  visit-Gains wanted p id (f ∷ found) w c steady ne =
      let t = takes env wanted (w.clients c) in
      let step = met-Gains wanted p id f w c steady ne in
      let w' = met wanted p id f w in
      Gains-to env refl
        (ap (λ b. got env t (if f == c then 1 else 0) p ++ got env b (count c found) p)
            step.takes_eq
          ∙ got_add env t (f == c) (count c found) p)
        (Gains-trans env wanted _ _ _ _ _ step (visit-Gains wanted p id found w' c steady ne))
