-- ===== src/Fsd/Server/Keeps.antt =====
-- fsd/handler.go: what every handler keeps, whichever client it runs for.
use openfsd.Prelude.{
  ℕ, ◌≡◌, ◌⊎◌, inl, inr, refl, sym, ap, ◌∙◌, Bool, true, false, Option, none, some, ◌==◌, ==_iff,
  if◌then◌else◌, Bool-cases,
}
use mathlib.Core.Path.{subst}
use openfsd.Prelude.Bytes.{Bytes}
use openfsd.Prelude.Int.{◌≤ℤ◌}
use openfsd.Callsign.Facility.{supervisor}
use openfsd.Fsd.Env.{Env, Laws, box_eq}
use openfsd.Fsd.Client.{Client, send, queues, cancel}
use openfsd.Fsd.PostOffice.{World, lookup, modify, box_of}
use openfsd.Fsd.PostOffice.Invariant.{IsRegistered, IsConsistent}

module _ (env : Env) (laws : Laws env) where
  -- A client's later state with the same name, place and rating.
  pub record Placed (k k' : Client env) : Type 0 where
    pub callsign_eq : k'.callsign ≡ k.callsign
    pub box_same : box_of env k' ≡ box_of env k
    pub rating_eq : k'.network_rating ≡ k.network_rating

  -- And with the same context.
  pub record Same (k k' : Client env) : Type 0 where
    pub placed : Placed k k'
    pub done_eq : k'.done ≡ k.done

  -- The agreement of map and tree, the registrations, and contexts: the context of another client
  -- ends only where the client of the packet is a supervisor or above.
  pub record Keeps (id : ℕ) (w w' : World env) : Type 0 where
    pub consistent : IsConsistent env laws w → IsRegistered env laws w id → IsConsistent env laws w'
    pub registered : (c : ℕ) → IsRegistered env laws w c → IsRegistered env laws w' c
    pub ended :
        (c : ℕ)
        → (w'.clients c).done ≡ true
        → ((w.clients c).done ≡ true) ⊎ ((c ≡ id) ⊎ (supervisor ≤ℤ (w.clients id).network_rating))
    pub rated : (w'.clients id).network_rating ≡ (w.clients id).network_rating
    pub listed : w'.client_map ≡ w.client_map

  pub Keeps-refl : (id : ℕ) (w : World env) → Keeps id w w
  Keeps-refl id w = record {
    consistent = λ ok reg. ok;
    registered = λ c reg. reg;
    ended = λ c d. inl d;
    rated = refl;
    listed = refl;
  }

  pub Keeps-trans :
      {id : ℕ} {w w' w'' : World env} → Keeps id w w' → Keeps id w' w'' → Keeps id w w''
  Keeps-trans {id} {w} {w'} {w''} g h = record {
    consistent = λ ok reg. h.consistent (g.consistent ok reg) (g.registered id reg);
    registered = λ c reg. h.registered c (g.registered c reg);
    ended = λ c d. elim (h.ended c d) [
      | inl e ↦ g.ended c e
      | inr (inl e) ↦ inr (inl e)
      | inr (inr s) ↦ inr (inr (subst (λ r. supervisor ≤ℤ r) g.rated s))
    ];
    rated = h.rated ∙ g.rated;
    listed = h.listed ∙ g.listed;
  }

  pub if-Keeps :
      {id : ℕ} {w x y : World env} (b : Bool)
      → (b ≡ true → Keeps id w x)
      → (b ≡ false → Keeps id w y)
      → Keeps id w (if b then x else y)
  if-Keeps true f g = f refl
  if-Keeps false f g = g refl

  pub option-Keeps {ℓ} :
      {A : Type ℓ} {id : ℕ} {w x : World env} {f : A → World env} (o : Option A)
      → (o ≡ none → Keeps id w x)
      → ((a : A) → o ≡ some a → Keeps id w (f a))
      → Keeps id w (elim o [ none ↦ x | some a ↦ f a ])
  option-Keeps none f g = f refl
  option-Keeps (some a) f g = g a refl

  Placed-refl : (k : Client env) → Placed k k
  Placed-refl k = record { callsign_eq = refl; box_same = refl; rating_eq = refl }

  Same-refl : (k : Client env) → Same k k
  Same-refl k = record { placed = Placed-refl k; done_eq = refl }

  if-Same : {k x : Client env} (b : Bool) → Same k x → Same k (if b then x else k)
  if-Same true s = s
  if-Same {k} false s = Same-refl k

  pub send-Same : (p : Bytes) (k : Client env) → Same k (send env p k)
  unfolding send
  send-Same p k = if-Same (queues env k) (record {
    placed = record { callsign_eq = refl; box_same = refl; rating_eq = refl };
    done_eq = refl;
  })

  -- New states of the clients, each with its name, place and rating.
  clients-Keeps :
      (id : ℕ) (w : World env) (g : ℕ → Client env)
      → ((c : ℕ) → Placed (w.clients c) (g c))
      → ((c : ℕ)
          → (g c).done ≡ true
          → ((w.clients c).done ≡ true)
            ⊎ ((c ≡ id) ⊎ (supervisor ≤ℤ (w.clients id).network_rating)))
      → Keeps id w (record w { clients = g })
  clients-Keeps id w g s ends = record {
    consistent = λ ok reg. record {
      keyed = λ k i e. (s i).callsign_eq ∙ ok.keyed k i e;
      held = λ i r.
          let (one, (b, there, fits)) = ok.held i (back i r) in
          (one, (b, there, ap (λ x. box_eq env x b) (s i).box_same ∙ fits));
      absent = λ i gone. ok.absent i (λ r. gone (forth i r));
    };
    registered = forth;
    ended = ends;
    rated = (s id).rating_eq;
    listed = refl;
  }
    where
      back :
          (i : ℕ) → IsRegistered env laws (record w { clients = g }) i → IsRegistered env laws w i
      back i r = ap (λ n. lookup n w.client_map) (sym (s i).callsign_eq) ∙ r

      forth :
          (i : ℕ) → IsRegistered env laws w i → IsRegistered env laws (record w { clients = g }) i
      forth i r = ap (λ n. lookup n w.client_map) (s i).callsign_eq ∙ r

  pub modify-Keeps :
      (id j : ℕ) (f : Client env → Client env) (w : World env)
      → ((k : Client env) → Same k (f k))
      → Keeps id w (modify env j f w)
  unfolding modify
  modify-Keeps id j f w s =
      clients-Keeps id w (λ c. if c == j then f (w.clients c) else w.clients c)
        (λ c. (if-Same (c == j) (s (w.clients c))).placed)
        (λ c d. inl (sym (if-Same (c == j) (s (w.clients c))).done_eq ∙ d))

  if-Placed : {k x : Client env} (b : Bool) → Placed k x → Placed k (if b then x else k)
  if-Placed true s = s
  if-Placed {k} false s = Placed-refl k

  -- A context that ends by right: the client's own, or by a supervisor.
  pub cancel-Keeps :
      (id j : ℕ) (w : World env)
      → (j ≡ id) ⊎ (supervisor ≤ℤ (w.clients id).network_rating)
      → Keeps id w (modify env j (cancel env) w)
  unfolding modify cancel
  cancel-Keeps id j w right =
      clients-Keeps id w (λ c. if c == j then record (w.clients c) { done = true } else w.clients c)
        (λ c. if-Placed (c == j) (record { callsign_eq = refl; box_same = refl; rating_eq = refl }))
        (λ c d. elim (Bool-cases (c == j)) [
          | inl here ↦ elim right [
            | inl own ↦ inr (inl ((==_iff c j).0 here ∙ own))
            | inr by ↦ inr (inr by)
          ]
          | inr other ↦ inl (
              subst
                (λ b. (if b then record (w.clients c) { done = true } else w.clients c).done ≡ true)
                other d)
        ])
