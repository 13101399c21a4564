-- ===== src/Fsd/PostOffice/Release.antt =====
-- A release keeps the post office's map and tree in agreement.
use openfsd.Prelude.{
  ℕ, ◌≡◌, ◌≢◌, inl, inr, ap, ◌∙◌, none, some, arith, ◌==◌, ==_iff, if◌then◌else◌, Bool-cases,
}
use mathlib.Core.Path.{subst}
use openfsd.Prelude.Bytes.{Bytes, bytes_eq, bytes_eq_iff}
use openfsd.Fsd.Env.{Env, Laws}
use openfsd.Fsd.PostOffice.{World, lookup, box_of, find, release}
use openfsd.Fsd.PostOffice.Invariant.{lookup-without, IsRegistered, IsHeld, IsConsistent}

module _ (env : Env) (laws : Laws env) where
  open laws use {copies, Holds}

  module _ (id : ℕ) (w : World env) (ok : IsConsistent env laws w)
      (reg : IsRegistered env laws w id) where
    released : World env
    released = release env id w

    lookup-released :
        (k : Bytes)
        → lookup k released.client_map
          ≡ (if bytes_eq (w.clients id).callsign k then none else lookup k w.client_map)
    unfolding released release
    lookup-released k = lookup-without (w.clients id).callsign k w.client_map

    keyed-released :
        (k : Bytes) (j : ℕ)
        → lookup k released.client_map ≡ some j
        → (released.clients j).callsign ≡ k
    unfolding released release
    keyed-released k j e = ground (arith, lookup-released k, ok.keyed k j)

    IsRegistered-before : (j : ℕ) → IsRegistered env laws released j → IsRegistered env laws w j
    unfolding released release
    IsRegistered-before j r = ground (arith, lookup-released (w.clients j).callsign, r)

    other_of_registered : (j : ℕ) → IsRegistered env laws released j → id ≢ j
    unfolding released release
    other_of_registered j r e = ground (
      arith,
      lookup-released (w.clients j).callsign,
      r,
      ap (λ n. (w.clients n).callsign) e,
      bytes_eq_iff (w.clients id).callsign (w.clients j).callsign,
    )

    IsRegistered-later :
        (j : ℕ) → id ≢ j → IsRegistered env laws w j → IsRegistered env laws released j
    unfolding released release
    IsRegistered-later j other r = ground (
      arith,
      lookup-released (w.clients j).callsign,
      bytes_eq_iff (w.clients id).callsign (w.clients j).callsign,
      r,
      reg,
    )

    IsHeld-released : (j : ℕ) → IsRegistered env laws released j → IsHeld env laws released j
    unfolding released release
    IsHeld-released j r =
        let other = other_of_registered j r in
        let (once, found) = ok.held j (IsRegistered-before j r) in
        let (b, there, same_box) = found in
        (
          laws.copies-delete_other (box_of env (w.clients id)) id j w.tree other ∙ once,
          (
            b,
            laws.Holds-delete_other (box_of env (w.clients id)) b id j w.tree other there,
            same_box,
          ),
        )

    gone_self : copies released.tree id ≡ 0
    unfolding released release
    gone_self =
        let (once, found) = ok.held id reg in
        let (b, there, same_box) = found in
        omega
          (arith, laws.copies-delete (box_of env (w.clients id)) b id w.tree there same_box, once)

    absent-released : (j : ℕ) → ¬ IsRegistered env laws released j → copies released.tree j ≡ 0
    absent-released j gone = elim (Bool-cases (id == j)) [
      | inl same ↦ subst (λ n. copies released.tree n ≡ 0) ((==_iff id j).0 same) gone_self
      | inr other ↦
          let apart : id ≢ j = λ e. ground (arith, other, e) in
          unfold released release in
          (laws.copies-delete_other (box_of env (w.clients id)) id j w.tree apart
            ∙ ok.absent j (λ r. gone (IsRegistered-later j apart r)))
    ]

  -- The release of a registered client keeps the agreement of map and tree.
  pub release-IsConsistent :
      (id : ℕ) (w : World env)
      → IsConsistent env laws w
      → IsRegistered env laws w id
      → IsConsistent env laws (release env id w)
  unfolding released
  release-IsConsistent id w ok reg = record {
    keyed = keyed-released id w ok reg;
    held = IsHeld-released id w ok reg;
    absent = absent-released id w ok reg;
  }

module _ (env : Env) where
  -- Behind the release of a client its callsign is free, and `find` gives under every other
  -- callsign what it gave before.
  pub release-find :
      (id : ℕ) (w : World env) (k : Bytes)
      → find env k (release env id w)
        ≡ (if bytes_eq (w.clients id).callsign k then none else find env k w)
  unfolding release find
  release-find id w k = lookup-without (w.clients id).callsign k w.client_map
