-- ===== src/Fsd/Broadcast/Ranged.antt =====
-- fsd/util.go, broadcastRanged and its two relatives: who gets the packet.
use openfsd.Prelude.{
  ℕ, ◌≡◌, ◌≢◌, refl, sym, ap, ◌∙◌, Bool, true, false, ◌&&◌, [], ◌∷◌, ◌++◌, arith, ==_iff,
  if◌then◌else◌,
}
use openfsd.Prelude.Bytes.{Bytes}
use openfsd.Fsd.Env.{Env, Laws, count}
use openfsd.Fsd.Client.{Client, send, queues}
use openfsd.Fsd.PostOffice.{World, modify, box_of, search}
use openfsd.Fsd.PostOffice.Invariant.{IsConsistent, IsRegistered}
use openfsd.Fsd.Broadcast.{
  deliver, anyone, speaks_velocity, is_controller, broadcast_ranged, broadcast_ranged_velocity,
  broadcast_ranged_atc_only,
}
use openfsd.Fsd.Broadcast.Delivered.{IsSteady, takes, got}
use openfsd.Fsd.Broadcast.Visit.{visit-Gains}

module _ (env : Env) (laws : Laws env) where
  open laws use {intersects}

  -- The client's box meets the sender's.
  abbrev pub in_range : World env → ℕ → ℕ → Bool
  in_range w id c = intersects (box_of env (w.clients id)) (box_of env (w.clients c))

  count_found :
      (w : World env) (id c : ℕ)
      → IsConsistent env laws w
      → IsRegistered env laws w c
      → count c (env.search (box_of env (w.clients id)) w.tree) ≡ (if in_range w id c then 1 else 0)
  count_found w id c ok reg =
      let (one, (b, held, same)) = ok.held c reg in
      laws.count-search (box_of env (w.clients id)) b c w.tree one held
      ∙ ap (λ x. if x then 1 else 0)
          (sym (laws.intersects_eq (box_of env (w.clients id)) (box_of env (w.clients c)) b same))

  abbrev reset : ℕ → World env → World env
  reset id w = modify env id (λ c. record c { closest_velocity_client_distance = env.max_float }) w

  reset_other : (w : World env) (id c : ℕ) → c ≢ id → ((reset id w).clients c) ≡ w.clients c
  unfolding modify
  reset_other w id c ne = ground (arith, ==_iff c id)

  -- What a broadcast leaves in the channel of a registered client other than the sender.
  abbrev pub Reaches : (Client env → Bool) → Bytes → World env → World env → ℕ → ℕ → Type 0
  Reaches wanted p w w' id c =
      (w'.clients c).outbox
      ≡ (w.clients c).outbox
        ++ (if takes env wanted (w.clients c) && in_range w id c then p ∷ [] else [])

  got_one :
      (t b : Bool) (p : Bytes) → got env t (if b then 1 else 0) p ≡ (if t && b then p ∷ [] else [])
  got_one true true p = refl
  got_one true false p = refl
  got_one false b p = refl

  search-Reaches :
      (wanted : Client env → Bool) (p : Bytes) (w : World env) (id c : ℕ)
      → IsSteady env wanted
      → IsConsistent env laws w
      → IsRegistered env laws w c
      → c ≢ id
      → Reaches wanted p w (search env id (deliver env wanted p) w) id c
  unfolding search
  search-Reaches wanted p w id c steady ok reg ne =
      let k = w.clients c in
      let found = env.search (box_of env (w.clients id)) w.tree in
      let gain = visit-Gains env wanted p id found (reset id w) c steady ne in
      gain.outbox_eq
      ∙ ap (λ j. j.outbox ++ got env (takes env wanted j) (count c found) p) (reset_other w id c ne)
      ∙ ap (λ n. k.outbox ++ got env (takes env wanted k) n p) (count_found w id c ok reg)
      ∙ ap (λ ps. k.outbox ++ ps) (got_one (takes env wanted k) (in_range w id c) p)

  pub send_keeps :
      {B : Type 0} (f : Client env → B) (b : Bool) (p : Bytes) (c : Client env)
      → f (record c { outbox = c.outbox ++ p ∷ [] }) ≡ f c
      → f (if b then record c { outbox = c.outbox ++ p ∷ [] } else c) ≡ f c
  send_keeps f true p c e = e
  send_keeps f false p c e = refl

  pub anyone-IsSteady : IsSteady env (anyone env)
  anyone-IsSteady = record { after_send = λ p c. refl; after_distance = λ d c. refl }

  speaks_velocity-IsSteady : IsSteady env (speaks_velocity env)
  unfolding send
  speaks_velocity-IsSteady = record {
    after_send = λ p c. send_keeps (speaks_velocity env) (queues env c) p c refl;
    after_distance = λ d c. refl;
  }

  pub is_controller-IsSteady : IsSteady env (is_controller env)
  unfolding send
  is_controller-IsSteady = record {
    after_send = λ p c. send_keeps (is_controller env) (queues env c) p c refl;
    after_distance = λ d c. refl;
  }

  -- Where the map and the tree agree, a broadcast in range puts its packet once into the channel of
  -- every registered client other than the sender whose box meets the sender's, whose channel takes
  -- packets, and (for the two narrower broadcasts) that speaks protocol revision 101 or is a
  -- controller; no other registered client's channel gets anything.
  pub broadcasts_ranged_reach :
      (w : World env) (id c : ℕ) (p : Bytes)
      → IsConsistent env laws w
      → IsRegistered env laws w c
      → c ≢ id
      → Reaches (anyone env) p w (broadcast_ranged env id p w) id c
        × Reaches (speaks_velocity env) p w (broadcast_ranged_velocity env id p w) id c
        × Reaches (is_controller env) p w (broadcast_ranged_atc_only env id p w) id c
  unfolding broadcast_ranged broadcast_ranged_velocity broadcast_ranged_atc_only
  broadcasts_ranged_reach w id c p ok reg ne = (
    search-Reaches (anyone env) p w id c anyone-IsSteady ok reg ne,
    search-Reaches (speaks_velocity env) p w id c speaks_velocity-IsSteady ok reg ne,
    search-Reaches (is_controller env) p w id c is_controller-IsSteady ok reg ne,
  )
