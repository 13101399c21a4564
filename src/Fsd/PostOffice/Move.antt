-- ===== src/Fsd/PostOffice/Move.antt =====
-- A new position keeps the post office's map and tree in agreement.
use openfsd.Prelude.{
  ℕ, ◌≡◌, ◌≢◌, inl, inr, sym, ap, ◌∙◌, true, false, some, arith, ◌==◌, ==_iff, Bool-cases,
}
use mathlib.Core.Path.{subst, ap₂}
use openfsd.Prelude.Bytes.{Bytes}
use openfsd.Fsd.Env.{Env, Laws, Box, box_eq}
use openfsd.Fsd.PostOffice.{World, lookup, modify, box_of, calculate_bounding_box, update_position}
use openfsd.Fsd.PostOffice.Invariant.{IsRegistered, IsHeld, IsConsistent}

module _ (env : Env) (laws : Laws env) where
  open laws use {copies, Holds}

  box_eq_sym : (a b : Box env) → box_eq env a b ≡ true → box_eq env b a ≡ true
  box_eq_sym (a, b, c, d) (a', b', c', d') h =
      ground (arith, laws.eq_sym a a', laws.eq_sym b b', laws.eq_sym c c', laws.eq_sym d d')

  box_eq_trans :
      (a b c : Box env) → box_eq env a b ≡ true → box_eq env b c ≡ true → box_eq env a c ≡ true
  box_eq_trans (a, b, c, d) (a', b', c', d') (x, y, z, u) h k = ground (
    arith,
    laws.eq_trans a a' x,
    laws.eq_trans b b' y,
    laws.eq_trans c c' z,
    laws.eq_trans d d' u,
  )

  module _ (id : ℕ) (lat lon range : env.Float) (w : World env) (ok : IsConsistent env laws w)
      (reg : IsRegistered env laws w id) where
    old : Box env
    old = box_of env (w.clients id)

    new : Box env
    new = calculate_bounding_box env lat lon range

    moved : World env
    moved = update_position env id lat lon range w

    callsign-moved : (j : ℕ) → (moved.clients j).callsign ≡ (w.clients j).callsign
    unfolding moved update_position modify
    callsign-moved j = ground (arith, ==_iff j id)

    map-moved : moved.client_map ≡ w.client_map
    unfolding moved update_position modify
    map-moved = ground arith

    IsRegistered-before : (j : ℕ) → IsRegistered env laws moved j → IsRegistered env laws w j
    IsRegistered-before j r = ap₂ lookup (sym (callsign-moved j)) (sym map-moved) ∙ r

    IsRegistered-later : (j : ℕ) → IsRegistered env laws w j → IsRegistered env laws moved j
    IsRegistered-later j r = ap₂ lookup (callsign-moved j) map-moved ∙ r

    tree_kept : box_eq env old new ≡ true → moved.tree ≡ w.tree
    unfolding moved update_position modify old new
    tree_kept same = ground (arith, same)

    tree_moved :
        box_eq env old new ≡ false → moved.tree ≡ env.insert new id (env.delete old id w.tree)
    unfolding moved update_position modify old new
    tree_moved apart = ground (arith, apart)

    box-moved_self : box_of env (moved.clients id) ≡ new
    unfolding moved update_position modify old new
    box-moved_self = ground (arith, ==_iff id id)

    box-moved_other : (j : ℕ) → id ≢ j → box_of env (moved.clients j) ≡ box_of env (w.clients j)
    unfolding moved update_position modify
    box-moved_other j other = ground (arith, ==_iff j id)

    -- The item of the client before the move.
    once : copies w.tree id ≡ 1
    once = (ok.held id reg).0

    held_box : (b : Box env) × Holds w.tree b id × (box_eq env old b ≡ true)
    unfolding old
    held_box = (ok.held id reg).1

    delete_self : copies (env.delete old id w.tree) id ≡ 0
    delete_self =
        let (b, there, same_box) = held_box in
        omega (arith, laws.copies-delete old b id w.tree there same_box, once)

    copies-moved_other : (j : ℕ) → id ≢ j → copies moved.tree j ≡ copies w.tree j
    copies-moved_other j other = elim (Bool-cases (box_eq env old new)) [
      | inl same ↦ ap (λ t. copies t j) (tree_kept same)
      | inr apart ↦
          ap (λ t. copies t j) (tree_moved apart)
          ∙ ground (
            arith,
            laws.copies-insert new id j (env.delete old id w.tree),
            laws.copies-delete_other old id j w.tree other,
            ==_iff id j,
          )
    ]

    IsHeld-self : box_eq env new new ≡ true → IsHeld env laws moved id
    IsHeld-self real = elim (Bool-cases (box_eq env old new)) [
      | inl same ↦
          let (b, there, same_box) = held_box in
          (
            ap (λ t. copies t id) (tree_kept same) ∙ once,
            (
              b,
              subst (λ t. Holds t b id) (sym (tree_kept same)) there,
              ap (λ a. box_eq env a b) box-moved_self
                  ∙ box_eq_trans new old b (box_eq_sym old new same) same_box,
            ),
          )
      | inr apart ↦ (
        ap (λ t. copies t id) (tree_moved apart)
            ∙ ground (
              arith,
              laws.copies-insert new id id (env.delete old id w.tree),
              delete_self,
              ==_iff id id,
            ),
        (
          new,
          subst (λ t. Holds t new id) (sym (tree_moved apart))
              (laws.Holds-insert_self new id (env.delete old id w.tree)),
          ap (λ a. box_eq env a new) box-moved_self ∙ real,
        ),
      )
    ]

    IsHeld-other : (j : ℕ) → id ≢ j → IsRegistered env laws moved j → IsHeld env laws moved j
    IsHeld-other j other r =
        let (one, found) = ok.held j (IsRegistered-before j r) in
        let (b, there, same_box) = found in
        (
          copies-moved_other j other ∙ one,
          (b, holds_other b there, ap (λ a. box_eq env a b) (box-moved_other j other) ∙ same_box),
        )
      where
        holds_other : (b : Box env) → Holds w.tree b j → Holds moved.tree b j
        holds_other b there = elim (Bool-cases (box_eq env old new)) [
          | inl same ↦ subst (λ t. Holds t b j) (sym (tree_kept same)) there
          | inr apart ↦
              subst (λ t. Holds t b j) (sym (tree_moved apart))
                (laws.Holds-insert new b id j (env.delete old id w.tree)
                  (laws.Holds-delete_other old b id j w.tree other there))
        ]

    IsHeld-moved :
        box_eq env new new ≡ true
        → (j : ℕ) → IsRegistered env laws moved j
        → IsHeld env laws moved j
    IsHeld-moved real j r = elim (Bool-cases (id == j)) [
      | inl same ↦ subst (λ n. IsHeld env laws moved n) ((==_iff id j).0 same) (IsHeld-self real)
      | inr other ↦ IsHeld-other j (λ e. ground (arith, other, e)) r
    ]

    absent-moved : (j : ℕ) → ¬ IsRegistered env laws moved j → copies moved.tree j ≡ 0
    absent-moved j gone = elim (Bool-cases (id == j)) [
      | inl same ↦ absurd (
          gone (
            IsRegistered-later j
              (subst (λ n. IsRegistered env laws w n) ((==_iff id j).0 same) reg)))
      | inr other ↦
          copies-moved_other j (λ e. ground (arith, other, e))
          ∙ ok.absent j (λ r. gone (IsRegistered-later j r))
    ]

    keyed-moved :
        (k : Bytes) (j : ℕ) → lookup k moved.client_map ≡ some j → (moved.clients j).callsign ≡ k
    keyed-moved k j e = callsign-moved j ∙ ok.keyed k j (ap (lookup k) (sym map-moved) ∙ e)

  -- A registered client that moves to a place whose box holds no NaN keeps the agreement of map
  -- and tree, both where the tree is written and where an unchanged box leaves it alone.
  pub update_position-IsConsistent :
      (id : ℕ) (lat lon range : env.Float) (w : World env)
      → IsConsistent env laws w
      → IsRegistered env laws w id
      → box_eq env
          (calculate_bounding_box env lat lon range)
          (calculate_bounding_box env lat lon range)
        ≡ true
      → IsConsistent env laws (update_position env id lat lon range w)
  unfolding moved new
  update_position-IsConsistent id lat lon range w ok reg real = record {
    keyed = keyed-moved id lat lon range w ok reg;
    held = IsHeld-moved id lat lon range w ok reg real;
    absent = absent-moved id lat lon range w ok reg;
  }
