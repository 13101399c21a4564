-- ===== src/Fsd/Server/Steps.antt =====
-- fsd/conn.go: the life of connections as steps of the server, and the states that it can reach.
use openfsd.Prelude.{
  ℕ, ◌≡◌, ◌≢◌, inl, inr, refl, sym, ap, ◌∙◌, true, [], some, arith, ◌==◌, ==_iff, Bool-cases,
}
use mathlib.Core.Path.{subst}
use openfsd.Prelude.Bytes.{Bytes}
use openfsd.Fsd.Env.{Env, Laws, box_eq}
use openfsd.Fsd.Client.{Client, cancel}
use openfsd.Fsd.Broadcast.{broadcast_all}
use openfsd.Fsd.Server.Keeps.{cancel-Keeps}
use openfsd.Fsd.Server.Sent.{all-Keeps}
use openfsd.Fsd.PostOffice.{World, lookup, modify, box_of, register, release}
use openfsd.Fsd.PostOffice.Invariant.{IsRegistered, IsConsistent}
use openfsd.Fsd.PostOffice.Register.{register-IsConsistent}
use openfsd.Fsd.PostOffice.Release.{release-IsConsistent}
use openfsd.Fsd.Server.{on_packet}
use openfsd.Fsd.Server.Moves.{IsReal}
use openfsd.Fsd.Server.Packets.{on_packet-IsConsistent}

module _ (env : Env) (laws : Laws env) where
  -- A new connection's client at an address, and its registration.
  abbrev pub arrive : ℕ → Client env → World env → World env
  arrive id k w = (register env id (modify env id (λ c. k) w)).0

  -- An address is used again only for a client that is not registered; a client sends packets and
  -- leaves while it is registered. `tells` is the broadcast of its coming and going, and `kicks` the
  -- service API's.
  pub data Step : World env → World env → Type 0 where
    arrives :
        {w : World env} (id : ℕ) (k : Client env)
        → ¬ IsRegistered env laws w id
        → box_eq env (box_of env k) (box_of env k) ≡ true
        → Step w (arrive id k w)
    sends :
        {w : World env} (now id : ℕ) (packet : Bytes)
        → IsRegistered env laws w id
        → IsReal env laws packet
        → Step w (on_packet env now id packet w)
    tells :
        {w : World env} (id : ℕ) (packet : Bytes)
        → IsRegistered env laws w id
        → Step w (broadcast_all env id packet w)
    kicks :
        {w : World env} (id : ℕ)
        → IsRegistered env laws w id
        → Step w (modify env id (cancel env) w)
    leaves : {w : World env} (id : ℕ) → IsRegistered env laws w id → Step w (release env id w)

  -- The states behind the start, where no client is registered and the tree is empty.
  pub data Reachable : World env → Type 0 where
    start : {w : World env} → w.client_map ≡ [] → w.tree ≡ env.empty → Reachable w
    next : {w w' : World env} → Reachable w → Step w w' → Reachable w'

  module _ (id : ℕ) (k : Client env) (w : World env) (ok : IsConsistent env laws w)
      (fresh : ¬ IsRegistered env laws w id) where
    put : World env
    put = modify env id (λ c. k) w

    -- The map does not have the address.
    not_listed : (n : Bytes) → lookup n w.client_map ≢ some id
    not_listed n e = fresh (ap (λ m. lookup m w.client_map) (ok.keyed n id e) ∙ e)

    put_other : (j : ℕ) → j ≢ id → put.clients j ≡ w.clients j
    unfolding put modify
    put_other j ne = ground (arith, ==_iff j id)

    IsRegistered-put : (j : ℕ) → IsRegistered env laws put j → (j ≢ id) × IsRegistered env laws w j
    unfolding put modify
    IsRegistered-put j r =
        let ne : j ≢ id = λ e.
          not_listed _ (subst (λ i. lookup (put.clients j).callsign w.client_map ≡ some i) e r) in
        (ne, ap (λ c. lookup c.callsign w.client_map) (sym (put_other j ne)) ∙ r)

    put-IsConsistent : IsConsistent env laws put
    unfolding put modify
    put-IsConsistent = record {
      keyed = λ n j e.
          let ne : j ≢ id = λ same. not_listed n (e ∙ ap some same) in
          ap (λ c. c.callsign) (put_other j ne) ∙ ok.keyed n j e;
      held = λ j r.
          let (ne, r') = IsRegistered-put j r in
          let (one, (b, there, fits)) = ok.held j r' in
          (one, (b, there, ap (λ c. box_eq env (box_of env c) b) (put_other j ne) ∙ fits));
      absent = λ j gone. elim (Bool-cases (j == id)) [
        | inl same ↦
            ok.absent j
              (λ r. fresh (subst (λ i. IsRegistered env laws w i) ((==_iff j id).0 same) r))
        | inr other ↦
            let ne : j ≢ id = λ e. ground (arith, other, e) in
            ok.absent j (λ r. gone (ap (λ c. lookup c.callsign w.client_map) (put_other j ne) ∙ r))
      ];
    }

    put_self : put.clients id ≡ k
    unfolding put modify
    put_self = ground (arith, ==_iff id id)

    arrive-IsConsistent :
        box_eq env (box_of env k) (box_of env k) ≡ true → IsConsistent env laws (arrive id k w)
    unfolding put
    arrive-IsConsistent real =
        register-IsConsistent env laws id put put-IsConsistent
          (ap (λ c. box_eq env (box_of env c) (box_of env c)) put_self ∙ real)

  start-IsConsistent :
      (w : World env) → w.client_map ≡ [] → w.tree ≡ env.empty → IsConsistent env laws w
  unfolding lookup
  start-IsConsistent w no_map no_tree = record {
    keyed = λ n j e. absurd (ground (arith, ap (lookup n) no_map, e));
    held = λ j r. absurd (ground (arith, ap (lookup (w.clients j).callsign) no_map, r));
    absent = λ j gone. ap (λ t. laws.copies t j) no_tree ∙ laws.copies-empty j;
  }

  Step-IsConsistent :
      (w w' : World env) → IsConsistent env laws w → Step w w' → IsConsistent env laws w'
  Step-IsConsistent w _ ok (arrives id k fresh real) = arrive-IsConsistent id k w ok fresh real
  Step-IsConsistent w _ ok (sends now id packet reg real) =
      (on_packet-IsConsistent env laws now id packet w real ok reg).0
  Step-IsConsistent w _ ok (tells id packet reg) =
      (all-Keeps env laws id packet w).consistent ok reg
  Step-IsConsistent w _ ok (kicks id reg) =
      (cancel-Keeps env laws id id w (inl refl)).consistent ok reg
  Step-IsConsistent w _ ok (leaves id reg) = release-IsConsistent env laws id w ok reg

  -- In every state that the server reaches from the start, whatever clients connect, send and
  -- leave in whatever order, the map and the tree agree: each registered client is in the tree
  -- once, under a box equal to its own, and no other client is in it. No box of a position has a
  -- corner that is not a number, and an address is used again only for a client that is not
  -- registered.
  pub Reachable-IsConsistent : (w : World env) → Reachable w → IsConsistent env laws w
  Reachable-IsConsistent w (start no_map no_tree) = start-IsConsistent w no_map no_tree
  Reachable-IsConsistent w (next {w = v} r s) = Step-IsConsistent v w (Reachable-IsConsistent v r) s
