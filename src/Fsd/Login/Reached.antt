-- ===== src/Fsd/Login/Reached.antt =====
-- fsd/conn.go: handleConn takes the server from reachable states to reachable states.
use openfsd.Prelude.{
  ℕ, ◌≡◌, inl, inr, refl, sym, ap, ◌∙◌, true, false, List, [], ◌∷◌, Option, none, some, arith,
  Bool-cases, Option-cases, ==_refl, length, leb,
}
use mathlib.Core.Path.{subst}
use openfsd.Prelude.Bytes.{Bytes, codes, bytes_eq_refl, bytes_eq_iff}
use openfsd.Callsign.{is_valid_client_callsign}
use openfsd.Packet.Code
use openfsd.Fsd.Env.{Env, Laws, box_eq}
use openfsd.Fsd.Client.{Client}
use openfsd.Fsd.PostOffice.{
  World, Error, lookup, without, modify, register, release, box_of, calculate_bounding_box,
}
use openfsd.Fsd.PostOffice.Invariant.{IsRegistered, IsConsistent, lookup-without}
use openfsd.Fsd.Broadcast.{broadcast_all}
use openfsd.Fsd.Server.Keeps.{Keeps}
use openfsd.Fsd.Server.Sent.{all-Keeps}
use openfsd.Fsd.Server.Steps.{
  Reachable, next, arrives, tells, leaves, arrive, Reachable-IsConsistent,
}
use openfsd.Fsd.Login.Read.{LoginData, Reading, refused, accepted}
use openfsd.Fsd.Login.Authenticate.{
  Authentication, denied, granted, Backend, check_software, authenticate_with,
  attempt_authentication,
}
use openfsd.Fsd.Login.Conn.{
  Arrival, Opening, disconnect_packet, welcome, turned_away, new_client, after_register, admit,
  open_data, open_read, open_authenticated, open_conn, close_conn,
}
use openfsd.Fsd.Login.Vouching.{Granted, software_same, granted_by_either}

-- A key that is not there is not taken away.
without_absent : (k : Bytes) (m : List (Bytes × ℕ)) → lookup k m ≡ none → without k m ≡ m
unfolding lookup without
without_absent k [] h = refl
without_absent k ((j, c) ∷ m) h = ground (arith, without_absent k m)

-- A new client's box has no corner that is not a number.
abbrev pub OriginIsReal : Env → Type 0
OriginIsReal env =
    let b = calculate_bounding_box env env.zero env.zero env.zero in box_eq env b b ≡ true

module _ (env : Env) (laws : Laws env) (backend : Backend) where
  -- What an opening leaves behind.
  record Leaves (id : ℕ) (w : World env) (o : Opening env) : Type 0 where
    reachable : Reachable env laws o.world
    entered : o.enters ≡ true → IsRegistered env laws o.world id
    turned : o.enters ≡ false → o.world.client_map ≡ w.client_map

  module _ (a : Arrival env) (w : World env) (r : Reachable env laws w)
      (fresh : ¬ IsRegistered env laws w a.id) where
    turned_away-Leaves : (e : Option (ℕ × Bytes)) → Leaves a.id w (turned_away env e w)
    turned_away-Leaves none = record {
      reachable = r;
      entered = λ h. absurd (cc);
      turned = λ _. refl;
    }
    turned_away-Leaves (some e) = record {
      reachable = r;
      entered = λ h. absurd (cc);
      turned = λ _. refl;
    }

    module _ (c : Client env) (real : box_eq env (box_of env c) (box_of env c) ≡ true) where
      arrived : Reachable env laws (arrive env laws a.id c w)
      arrived = next r (arrives a.id c fresh real)

      arrived-IsRegistered :
          lookup c.callsign w.client_map ≡ none
          → IsRegistered env laws (arrive env laws a.id c w) a.id
      unfolding register modify lookup
      arrived-IsRegistered free = ground (arith, free, ==_refl a.id, bytes_eq_refl c.callsign)

      left_map :
          lookup c.callsign w.client_map ≡ none
          → (release env a.id (arrive env laws a.id c w)).client_map ≡ w.client_map
      unfolding register modify release without
      left_map free = ground (
        arith,
        free,
        ==_refl a.id,
        bytes_eq_refl c.callsign,
        without_absent c.callsign w.client_map free,
      )

      welcome-Leaves :
          (packets : List Bytes)
          → lookup c.callsign w.client_map ≡ none
          → Leaves a.id w (welcome env a.id a.room packets (arrive env laws a.id c w))
      unfolding welcome
      welcome-Leaves packets free = elim (Bool-cases (leb (length packets) a.room)) [
        | inl all ↦ rw all (record {
          reachable = next arrived (tells a.id _ (arrived-IsRegistered free));
          entered = λ _.
              (all-Keeps env laws a.id _ (arrive env laws a.id c w)).registered a.id
                (arrived-IsRegistered free);
          turned = λ h. absurd (cc);
        })
        | inr some_left ↦ rw some_left (record {
          reachable = next arrived (leaves a.id (arrived-IsRegistered free));
          entered = λ h. absurd (cc);
          turned = λ _. left_map free;
        })
      ]

      registers :
          lookup c.callsign w.client_map ≡ none
          → (register env a.id (modify env a.id (λ _. c) w)).1 ≡ none
      unfolding register modify
      registers free = ground (arith, free, ==_refl a.id)

      refuses :
          (other : ℕ)
          → lookup c.callsign w.client_map ≡ some other
          → register env a.id (modify env a.id (λ _. c) w)
            ≡ (modify env a.id (λ _. c) w, some Error.callsign_in_use)
      unfolding register modify
      refuses other there = ground (arith, there, ==_refl a.id)

      refused-Leaves :
          (other : ℕ)
          → lookup c.callsign w.client_map ≡ some other
          → Leaves a.id w (
              turned_away env
                (some (Code.callsign_in_use, codes "Callsign already in use"))
                (modify env a.id (λ _. c) w))
      unfolding modify
      refused-Leaves other there = record {
        reachable = subst (Reachable env laws) (ap (λ p. p.0) (refuses other there)) arrived;
        entered = λ h. absurd (cc);
        turned = λ _. refl;
      }

      admit-Leaves : Leaves a.id w (admit env backend a c w)
      unfolding admit
      admit-Leaves = elim (Option-cases (lookup c.callsign w.client_map)) [
        | inl free ↦
            subst
              (λ e. Leaves a.id w (after_register env backend a c (arrive env laws a.id c w, e)))
              (sym (registers free)) (welcome-Leaves _ free)
        | inr (other, there) ↦
            subst (λ p. Leaves a.id w (after_register env backend a c p))
              (sym (refuses other there)) (refused-Leaves other there)
      ]

    module _ (origin : OriginIsReal env) where
      authenticated-Leaves :
          (d : LoginData) (token : Bytes) (s g : Authentication env)
          → check_software env backend (new_client env d a.addr a.late_room) ≡ s
          → authenticate_with env backend a.now token s ≡ g
          → Leaves a.id w (open_authenticated env backend a w g)
      authenticated-Leaves d token s (denied e) soft auth = turned_away-Leaves e
      authenticated-Leaves d token (denied e) (granted c) soft auth = absurd (cc)
      authenticated-Leaves d token (granted c) (granted c') soft auth =
          let (_, _, _, box) =
            software_same env backend (new_client env d a.addr a.late_room) c soft in
          let g : Granted env backend a.now token c c' =
            granted_by_either env backend a.now token c c' auth in
          admit-Leaves c' (subst (λ b. box_eq env b b ≡ true) (sym (g.same_box ∙ box)) origin)

      read-Leaves : (g : Reading) → Leaves a.id w (open_read env backend a w g)
      unfolding open_data attempt_authentication
      read-Leaves (refused code message) = turned_away-Leaves (some (code, message))
      read-Leaves (accepted d token) = elim (Bool-cases (is_valid_client_callsign d.callsign)) [
        | inl named ↦ rw named (authenticated-Leaves d token _ _ refl refl)
        | inr bad ↦
            rw bad (turned_away-Leaves (some (Code.callsign_invalid, codes "Callsign invalid")))
      ]

  -- Whatever a connection sends and however its login ends, a reachable state of the server leads to
  -- a reachable state: with the client registered if its event loop starts, and otherwise with the
  -- same map from callsigns to clients as before. The connection's address is not registered, and a
  -- new client's box has no corner that is not a number.
  pub open_conn-Reachable :
      (a : Arrival env) (w : World env)
      → Reachable env laws w
      → ¬ IsRegistered env laws w a.id
      → OriginIsReal env
      → let o = open_conn env backend a w in
        Reachable env laws o.world
        × (o.enters ≡ true → IsRegistered env laws o.world a.id)
        × (o.enters ≡ false → o.world.client_map ≡ w.client_map)
  unfolding open_conn
  open_conn-Reachable a w r fresh origin =
      let l : Leaves a.id w (open_conn env backend a w) = read-Leaves a w r fresh origin _ in
      (l.reachable, l.entered, l.turned)

module _ (env : Env) (laws : Laws env) where
  -- A registered client's connection that ends leaves a reachable state, in which its callsign is
  -- free again.
  pub close_conn-Reachable :
      (id : ℕ) (w : World env)
      → Reachable env laws w
      → IsRegistered env laws w id
      → Reachable env laws (close_conn env id w)
        × (lookup (w.clients id).callsign (close_conn env id w).client_map ≡ none)
  unfolding close_conn release
  close_conn-Reachable id w r reg =
      let p = disconnect_packet env (w.clients id) in
      let w' = broadcast_all env id p w in
      let kept : Keeps env laws id w w' = all-Keeps env laws id p w in
      let reg' = kept.registered id reg in
      let told : Reachable env laws w' = next r (tells id p reg) in
      let ok : IsConsistent env laws w' = Reachable-IsConsistent env laws w' told in
      let named = ok.keyed (w.clients id).callsign id (ap (lookup _) kept.listed ∙ reg) in
      (next told (leaves id reg'), without_named w'.client_map named)
    where
      without_named : {k j : Bytes} (m : List (Bytes × ℕ)) → k ≡ j → lookup j (without k m) ≡ none
      without_named {k} {j} m same = lookup-without k j m ∙ rw ((bytes_eq_iff k j).1 same)
