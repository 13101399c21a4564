-- ===== src/Fsd/Broadcast/Delivered.antt =====
-- fsd/util.go: what the callback of a broadcast puts into each client's channel.
use openfsd.Prelude.{
  ℕ, zero, suc, ◌+◌, ◌≡◌, ◌≢◌, refl, sym, ap, ◌∙◌, Bool, true, false, ◌&&◌, List, [], ◌∷◌, ◌++◌,
  arith, ◌==◌, ==_iff, if◌then◌else◌, Bool-cases, inl, inr,
}
use mathlib.Core.Path.{subst}
use mathlib.Core.List.{append-nil, append_assoc}
use openfsd.Prelude.Bytes.{Bytes}
use openfsd.Fsd.Env.{Env}
use openfsd.Fsd.Client.{Client, send, queues}
use openfsd.Fsd.PostOffice.{World, modify}
use openfsd.Fsd.Broadcast.{deliver}

abbrev pub replicate : ℕ → Bytes → List Bytes
replicate zero p = []
replicate (suc n) p = p ∷ replicate n p

module _ (env : Env) where
  -- A test that reads only what a broadcast does not write.
  pub record IsSteady (wanted : Client env → Bool) : Type 0 where
    pub after_send : (p : Bytes) (c : Client env) → wanted (send env p c) ≡ wanted c
    pub after_distance :
        (d : env.Float) (c : Client env)
        → wanted (record c { closest_velocity_client_distance = d }) ≡ wanted c

  -- Whether the client takes a packet of the broadcast.
  abbrev pub takes : (Client env → Bool) → Client env → Bool
  takes wanted c = wanted c && queues env c

  -- The second state of a client has the packets more, and answers the tests of a delivery alike.
  pub record Gains (wanted : Client env → Bool) (k k' : Client env) (ps : List Bytes) : Type 0 where
    pub outbox_eq : k'.outbox ≡ k.outbox ++ ps
    pub takes_eq : takes wanted k' ≡ takes wanted k

  pub Gains-none : (wanted : Client env → Bool) (k : Client env) → Gains wanted k k []
  Gains-none wanted k = record { outbox_eq = sym (append-nil k.outbox); takes_eq = refl }

  pub Gains-trans :
      (wanted : Client env → Bool) (k k' k'' : Client env) (ps qs : List Bytes)
      → Gains wanted k k' ps
      → Gains wanted k' k'' qs
      → Gains wanted k k'' (ps ++ qs)
  Gains-trans wanted k k' k'' ps qs g h = record {
    outbox_eq = h.outbox_eq ∙ ap (λ o. o ++ qs) g.outbox_eq ∙ append_assoc k.outbox ps qs;
    takes_eq = h.takes_eq ∙ g.takes_eq;
  }

  if-outbox :
      (b : Bool) (p : Bytes) (k : Client env)
      → (if b then record k { outbox = k.outbox ++ p ∷ [] } else k).outbox
        ≡ k.outbox ++ (if b then p ∷ [] else [])
  if-outbox true p k = refl
  if-outbox false p k = sym (append-nil k.outbox)

  if-queues :
      (b : Bool) (p : Bytes) (k : Client env)
      → queues env (if b then record k { outbox = k.outbox ++ p ∷ [] } else k) ≡ queues env k
  if-queues true p k = refl
  if-queues false p k = refl

  queued-Gains :
      (wanted : Client env → Bool) (p : Bytes) (k : Client env)
      → IsSteady wanted
      → wanted k ≡ true
      → Gains wanted k (send env p k) (if takes wanted k then p ∷ [] else [])
  unfolding send
  queued-Gains wanted p k steady h = record {
    outbox_eq =
        if-outbox (queues env k) p k
        ∙ ap (λ b. k.outbox ++ (if b && queues env k then p ∷ [] else [])) (sym h);
    takes_eq =
        ap (λ b. b && queues env (send env p k)) (steady.after_send p k)
        ∙ ap (λ b. wanted k && b) (if-queues (queues env k) p k);
  }

  -- The packets that a client gets which the walk meets some times.
  abbrev pub got : Bool → ℕ → Bytes → List Bytes
  got b n p = if b then replicate n p else []

  deliver_self :
      (wanted : Client env → Bool) (p : Bytes) (w : World env) (c : ℕ)
      → (deliver env wanted p c w).clients c
        ≡ (if wanted (w.clients c) then send env p (w.clients c) else w.clients c)
  unfolding deliver modify
  deliver_self wanted p w c = ground (arith, ==_iff c c)

  deliver_other :
      (wanted : Client env → Bool) (p : Bytes) (found : ℕ) (w : World env) (c : ℕ)
      → found ≢ c
      → (deliver env wanted p found w).clients c ≡ w.clients c
  unfolding deliver modify
  deliver_other wanted p found w c ne = ground (arith, ==_iff c found)

  pub got_none : (b : Bool) (p : Bytes) → got b 0 p ≡ []
  got_none true p = refl
  got_none false p = refl

  sent-Gains :
      (wanted : Client env → Bool) (p : Bytes) (k : Client env)
      → IsSteady wanted
      → Gains wanted k (if wanted k then send env p k else k) (got (takes wanted k) 1 p)
  sent-Gains wanted p k steady = elim (Bool-cases (wanted k)) [
    | inl h ↦
        subst (λ b. Gains wanted k (if b then send env p k else k) (got (takes wanted k) 1 p))
          (sym h) (queued-Gains wanted p k steady h)
    | inr h ↦
        subst (λ b. Gains wanted k (if b then send env p k else k) (got (b && queues env k) 1 p))
          (sym h) (Gains-none wanted k)
  ]

  pub Gains-to :
      {wanted : Client env → Bool} {k k' k'' : Client env} {ps qs : List Bytes}
      → k' ≡ k''
      → ps ≡ qs
      → Gains wanted k k' ps
      → Gains wanted k k'' qs
  Gains-to {wanted} {k} {k'} {k''} {ps} {qs} e f g =
      subst (Gains wanted k k'') f (subst (λ j. Gains wanted k j ps) e g)

  pub deliver-Gains :
      (wanted : Client env → Bool) (p : Bytes) (found : ℕ) (w : World env) (c : ℕ)
      → IsSteady wanted
      → Gains wanted
          (w.clients c)
          ((deliver env wanted p found w).clients c)
          (got (takes wanted (w.clients c)) (if found == c then 1 else 0) p)
  deliver-Gains wanted p found w c steady =
      let t = takes wanted (w.clients c) in
      elim (Bool-cases (found == c)) [
        | inl e ↦
            Gains-to
              (sym (
                ap (λ f. (deliver env wanted p f w).clients c) ((==_iff found c).0 e)
                ∙ deliver_self wanted p w c))
              (ap (λ b. got t (if b then 1 else 0) p) (sym e))
              (sent-Gains wanted p (w.clients c) steady)
        | inr e ↦
            Gains-to (sym (deliver_other wanted p found w c (ground (arith, ==_iff found c))))
              (sym (ap (λ b. got t (if b then 1 else 0) p) e ∙ got_none t p))
              (Gains-none wanted (w.clients c))
      ]

  pub got_add :
      (t b : Bool) (n : ℕ) (p : Bytes)
      → got t (if b then 1 else 0) p ++ got t n p ≡ got t ((if b then 1 else 0) + n) p
  got_add false b n p = refl
  got_add true false n p = ap (λ m. replicate m p) {x = n} {y = 0 + n} (omega arith)
  got_add true true n p = ap (λ m. replicate m p) {x = suc n} {y = 1 + n} (omega arith)

  pub found_ne : (found c id : ℕ) → (found == id) ≡ true → c ≢ id → (found == c) ≡ false
  found_ne found c id e ne = ground (arith, ==_iff found id, ==_iff found c)
