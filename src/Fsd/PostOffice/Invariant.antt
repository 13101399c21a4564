-- ===== src/Fsd/PostOffice/Invariant.antt =====
-- The post office's map and tree agree: each registered client is in the tree once, under its own
-- box, and no other client is in it.
use openfsd.Prelude.{ℕ, ◌≡◌, true, List, [], ◌∷◌, none, some, arith, if◌then◌else◌}
use openfsd.Prelude.Bytes.{Bytes, bytes_eq, bytes_eq_iff}
use openfsd.Fsd.Env.{Env, Laws, Box, box_eq}
use openfsd.Fsd.PostOffice.{World, lookup, without, box_of}

pub lookup-without :
    (k j : Bytes) (m : List (Bytes × ℕ))
    → lookup j (without k m) ≡ (if bytes_eq k j then none else lookup j m)
unfolding lookup without
lookup-without k j [] = ground arith
lookup-without k j ((i, c) ∷ m) =
    ground (arith, lookup-without k j m, bytes_eq_iff i k, bytes_eq_iff i j, bytes_eq_iff k j)

module _ (env : Env) (laws : Laws env) where
  open laws use {copies, Holds}

  -- The map has the client under its own callsign.
  abbrev pub IsRegistered : World env → ℕ → Type 0
  IsRegistered w id = lookup (w.clients id).callsign w.client_map ≡ some id

  -- The tree has one item of the client, under a box equal to the client's.
  abbrev pub IsHeld : World env → ℕ → Type 0
  IsHeld w id =
      (copies w.tree id ≡ 1)
      × ((b : Box env) × Holds w.tree b id × (box_eq env (box_of env (w.clients id)) b ≡ true))

  pub record IsConsistent (w : World env) : Type 0 where
    pub keyed : (k : Bytes) (id : ℕ) → lookup k w.client_map ≡ some id → (w.clients id).callsign ≡ k
    pub held : (id : ℕ) → IsRegistered w id → IsHeld w id
    pub absent : (id : ℕ) → ¬ IsRegistered w id → copies w.tree id ≡ 0
