-- ===== src/Fsd/PostOffice/Register.antt =====
-- Registration keeps the post office's map and tree in agreement.
use openfsd.Prelude.{
  ℕ, ◌+◌, ◌≡◌, ◌≢◌, inl, inr, refl, sym, true, ◌∷◌, none, some, arith, ◌==◌, ==_iff, if◌then◌else◌,
  Bool-cases, Option-cases,
}
use mathlib.Core.Path.{subst}
use openfsd.Prelude.Bytes.{Bytes, bytes_eq, bytes_eq_iff, bytes_eq_refl}
use openfsd.Fsd.Env.{Env, Laws, box_eq}
use openfsd.Fsd.PostOffice.{World, callsign_in_use, lookup, box_of, register, find}
use openfsd.Fsd.PostOffice.Invariant.{IsRegistered, IsHeld, IsConsistent}

module _ (env : Env) (laws : Laws env) where
  open laws use {copies, Holds}

  -- A registration with a free callsign.
  module _ (id : ℕ) (w : World env) (ok : IsConsistent env laws w)
      (free : lookup (w.clients id).callsign w.client_map ≡ none) where
    registered : World env
    registered = record w {
      client_map = ((w.clients id).callsign, id) ∷ w.client_map;
      tree = env.insert (box_of env (w.clients id)) id w.tree;
    }

    lookup-registered :
        (k : Bytes)
        → lookup k registered.client_map
          ≡ (if bytes_eq (w.clients id).callsign k then some id else lookup k w.client_map)
    unfolding lookup registered
    lookup-registered k = refl

    copies-registered :
        (j : ℕ) → copies registered.tree j ≡ (if id == j then 1 else 0) + copies w.tree j
    unfolding registered
    copies-registered j = laws.copies-insert (box_of env (w.clients id)) id j w.tree

    absent_before : copies w.tree id ≡ 0
    absent_before = ok.absent id (λ reg. ground (arith, reg, free))

    keyed-registered :
        (k : Bytes) (j : ℕ)
        → lookup k registered.client_map ≡ some j
        → (registered.clients j).callsign ≡ k
    unfolding registered
    keyed-registered k j e =
        ground (arith, lookup-registered k, ok.keyed k j, bytes_eq_iff (w.clients id).callsign k)

    IsHeld-self :
        box_eq env (box_of env (w.clients id)) (box_of env (w.clients id)) ≡ true
        → IsHeld env laws registered id
    unfolding registered
    IsHeld-self real = (
      ground (arith, copies-registered id, absent_before),
      (
        box_of env (w.clients id),
        laws.Holds-insert_self (box_of env (w.clients id)) id w.tree,
        real,
      ),
    )

    IsRegistered-before :
        (j : ℕ) → id ≢ j → IsRegistered env laws registered j → IsRegistered env laws w j
    unfolding registered
    IsRegistered-before j other reg = ground (arith, lookup-registered (w.clients j).callsign, reg)

    IsHeld-registered :
        box_eq env (box_of env (w.clients id)) (box_of env (w.clients id)) ≡ true
        → (j : ℕ) → IsRegistered env laws registered j
        → IsHeld env laws registered j
    unfolding registered
    IsHeld-registered real j reg = elim (Bool-cases (id == j)) [
      | inl same ↦
          subst (λ n. IsHeld env laws registered n) ((==_iff id j).0 same) (IsHeld-self real)
      | inr other ↦
          let (once, found) =
            ok.held j (IsRegistered-before j (λ e. ground (arith, other, e)) reg) in
          let (b, there, same_box) = found in
          (
            ground (arith, copies-registered j),
            (b, laws.Holds-insert (box_of env (w.clients id)) b id j w.tree there, same_box),
          )
    ]

    registered_self : IsRegistered env laws registered id
    unfolding registered
    registered_self =
        ground
          (arith, lookup-registered (w.clients id).callsign, bytes_eq_refl (w.clients id).callsign)

    IsRegistered-later : (j : ℕ) → IsRegistered env laws w j → IsRegistered env laws registered j
    unfolding registered
    IsRegistered-later j reg = ground (
      arith,
      lookup-registered (w.clients j).callsign,
      bytes_eq_iff (w.clients id).callsign (w.clients j).callsign,
      reg,
      free,
    )

    absent-registered :
        (j : ℕ) → ¬ IsRegistered env laws registered j → copies registered.tree j ≡ 0
    absent-registered j gone = elim (Bool-cases (id == j)) [
      | inl same ↦ absurd (
          gone (
            subst (λ n. IsRegistered env laws registered n) ((==_iff id j).0 same) registered_self))
      | inr other ↦
          ground (arith, copies-registered j, ok.absent j (λ reg. gone (IsRegistered-later j reg)))
    ]

    register_free : register env id w ≡ (registered, none)
    unfolding register registered
    register_free = rw (free, register)

  register_taken :
      (id other : ℕ) (w : World env)
      → lookup (w.clients id).callsign w.client_map ≡ some other
      → register env id w ≡ (w, some callsign_in_use)
  unfolding register
  register_taken id other w taken = rw (taken, register)

  -- A registration keeps the agreement of map and tree, whether or not the callsign is free. None
  -- of the corners of the client's box is NaN, which is not equal to itself.
  pub register-IsConsistent :
      (id : ℕ) (w : World env)
      → IsConsistent env laws w
      → box_eq env (box_of env (w.clients id)) (box_of env (w.clients id)) ≡ true
      → IsConsistent env laws (register env id w).0
  register-IsConsistent id w ok real =
      elim (Option-cases (lookup (w.clients id).callsign w.client_map)) [
        | inr (other, taken) ↦
            subst (λ v. IsConsistent env laws v.0) (sym (register_taken id other w taken)) ok
        | inl free ↦
            subst (λ v. IsConsistent env laws v.0) (sym (register_free id w ok free))
              (record {
                keyed = keyed-registered id w ok free;
                held = IsHeld-registered id w ok free real;
                absent = absent-registered id w ok free;
              })
      ]

module _ (env : Env) where
  -- Behind a registration under a free callsign, `find` gives the client under it, and under every
  -- other callsign what it gave before; behind one under a taken callsign it gives what it gave
  -- before.
  pub register-find :
      (id : ℕ) (w : World env) (k : Bytes)
      → find env k (register env id w).0 ≡ (elim (lookup (w.clients id).callsign w.client_map) [
        | some other ↦ find env k w
        | none ↦ if bytes_eq (w.clients id).callsign k then some id else find env k w
      ])
  unfolding register find lookup
  register-find id w k = ground arith
