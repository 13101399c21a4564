-- ===== src/Fsd/Server/Everyone.antt =====
-- fsd/util.go, broadcastAll and its two relatives: who gets the packet.
use openfsd.Prelude.{
  ℕ, ◌≡◌, ◌≢◌, refl, sym, ap, ◌∙◌, Bool, List, [], ◌∷◌, ◌++◌, ◌==◌, if◌then◌else◌, Bool-cases, inl,
  inr,
}
use openfsd.Prelude.Bytes.{Bytes}
use openfsd.Fsd.Env.{Env, Laws, count}
use openfsd.Fsd.Client.{Client, send, queues}
use openfsd.Fsd.PostOffice.{World, all_clients, each}
use openfsd.Fsd.PostOffice.Invariant.{IsRegistered}
use openfsd.Fsd.Broadcast.{
  deliver, anyone, is_controller, is_supervisor, broadcast_all, broadcast_all_atc,
  broadcast_all_supervisors,
}
use openfsd.Fsd.Broadcast.Delivered.{
  IsSteady, Gains, Gains-none, Gains-trans, Gains-to, deliver-Gains, takes, got, got_none, got_add,
  found_ne,
}
use openfsd.Fsd.Broadcast.Ranged.{anyone-IsSteady, is_controller-IsSteady, send_keeps}
use openfsd.Fsd.Server.Distinct.{ids, count-ids, Reachable-IsDistinct}
use openfsd.Fsd.Server.Steps.{Reachable, Reachable-IsConsistent}

module _ (env : Env) where
  called-Gains :
      (wanted : Client env → Bool) (p : Bytes) (id found : ℕ) (w : World env) (c : ℕ)
      → IsSteady env wanted
      → c ≢ id
      → Gains env wanted
          (w.clients c)
          ((if found == id then w else deliver env wanted p found w).clients c)
          (got env (takes env wanted (w.clients c)) (if found == c then 1 else 0) p)
  called-Gains wanted p id found w c steady ne =
      let t = takes env wanted (w.clients c) in
      elim (Bool-cases (found == id)) [
        | inl e ↦
            Gains-to env
              (ap (λ b. (if b then w else deliver env wanted p found w).clients c) (sym e))
              (sym (
                ap (λ b. got env t (if b then 1 else 0) p) (found_ne env found c id e ne)
                ∙ got_none env t p))
              (Gains-none env wanted (w.clients c))
        | inr e ↦
            Gains-to env
              (ap (λ b. (if b then w else deliver env wanted p found w).clients c) (sym e)) refl
              (deliver-Gains env wanted p found w c steady)
      ]

  each-Gains :
      (wanted : Client env → Bool) (p : Bytes) (id : ℕ) (m : List (Bytes × ℕ)) (w : World env)
      (c : ℕ)
      → IsSteady env wanted
      → c ≢ id
      → Gains env wanted
          (w.clients c)
          ((each env id (deliver env wanted p) m w).clients c)
          (got env (takes env wanted (w.clients c)) (count c (ids m)) p)
  unfolding each
  each-Gains wanted p id [] w c steady ne =
      Gains-to env refl (sym (got_none env (takes env wanted (w.clients c)) p))
        (Gains-none env wanted (w.clients c))
  each-Gains wanted p id ((k, f) ∷ m) w c steady ne =
      let t = takes env wanted (w.clients c) in
      let step = called-Gains wanted p id f w c steady ne in
      Gains-to env refl
        (ap (λ b. got env t (if f == c then 1 else 0) p ++ got env b (count c (ids m)) p)
            step.takes_eq
          ∙ got_add env t (f == c) (count c (ids m)) p)
        (Gains-trans env wanted _ _ _ _ _ step
          (each-Gains wanted p id m (if f == id then w else deliver env wanted p f w) c steady ne))

  -- What a broadcast to all leaves in a client's channel.
  abbrev pub Tells : (Client env → Bool) → Bytes → World env → World env → ℕ → Type 0
  Tells wanted p w w' c =
      (w'.clients c).outbox
      ≡ (w.clients c).outbox ++ (if takes env wanted (w.clients c) then p ∷ [] else [])

module _ (env : Env) (laws : Laws env) where
  is_supervisor-IsSteady : IsSteady env (is_supervisor env)
  unfolding send
  is_supervisor-IsSteady = record {
    after_send = λ p c. send_keeps env laws (is_supervisor env) (queues env c) p c refl;
    after_distance = λ d c. refl;
  }

  all-Tells :
      (wanted : Client env → Bool) (p : Bytes) (w : World env) (id c : ℕ)
      → IsSteady env wanted
      → Reachable env laws w
      → IsRegistered env laws w c
      → c ≢ id
      → Tells env wanted p w (all_clients env id (deliver env wanted p) w) c
  unfolding all_clients
  all-Tells wanted p w id c steady reached reg ne =
      let k = w.clients c in
      let ok = Reachable-IsConsistent env laws w reached in
      let once =
        count-ids k.callsign c w.client_map (Reachable-IsDistinct env laws w reached) reg
          (λ j e. sym (ok.keyed j c e)) in
      (each-Gains env wanted p id w.client_map w c steady ne).outbox_eq
      ∙ ap (λ n. k.outbox ++ got env (takes env wanted k) n p) once

  -- In every state that the server reaches, a broadcast to all puts its packet once into the channel
  -- of every registered client other than the sender whose channel takes packets, and (for the two
  -- narrower broadcasts) that is a controller, or a supervisor or above; no other registered client's
  -- channel gets anything.
  pub broadcasts_all_tell :
      (w : World env) (id c : ℕ) (p : Bytes)
      → Reachable env laws w
      → IsRegistered env laws w c
      → c ≢ id
      → Tells env (anyone env) p w (broadcast_all env id p w) c
        × Tells env (is_controller env) p w (broadcast_all_atc env id p w) c
        × Tells env (is_supervisor env) p w (broadcast_all_supervisors env id p w) c
  unfolding broadcast_all broadcast_all_atc broadcast_all_supervisors
  broadcasts_all_tell w id c p reached reg ne = (
    all-Tells (anyone env) p w id c (anyone-IsSteady env laws) reached reg ne,
    all-Tells (is_controller env) p w id c (is_controller-IsSteady env laws) reached reg ne,
    all-Tells (is_supervisor env) p w id c is_supervisor-IsSteady reached reg ne,
  )
