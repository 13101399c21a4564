-- ===== src/Db/Users/Rows.antt =====
-- What a write to the table of users changes.
use openfsd.Prelude.{◌≡◌, List, [], ◌∷◌, arith, inl, inr, Bool-cases, if◌then◌else◌}
use openfsd.Prelude.Int.{ℤ, eqb_ℤ, eqb_ℤ_iff}
use openfsd.Db.Users.{User, ok, err, get_user_by_cid, update_rows}

-- An update that keeps the key is seen at the key and nowhere else.
pub get_user-update_rows :
    (cid k : ℤ) (f : User → User) (rows : List User)
    → ((u : User) → (f u).cid ≡ u.cid)
    → get_user_by_cid k (update_rows cid f rows) ≡ (
        if eqb_ℤ k cid
        then (elim (get_user_by_cid cid rows) [ ok u ↦ ok (f u) | err e ↦ err e ])
        else get_user_by_cid k rows)
unfolding get_user_by_cid update_rows
get_user-update_rows cid k f [] keeps = ground arith
get_user-update_rows cid k f (u ∷ rows) keeps = ground (
  arith,
  keeps u,
  eqb_ℤ_iff u.cid cid,
  eqb_ℤ_iff u.cid k,
  eqb_ℤ_iff k cid,
  get_user-update_rows cid k f rows keeps,
)

-- The row that is found has the CID that was asked for.
pub get_user_by_cid-cid :
    (u : User) (cid : ℤ) (rows : List User) → get_user_by_cid cid rows ≡ ok u → u.cid ≡ cid
unfolding get_user_by_cid
get_user_by_cid-cid u cid [] h = absurd (cc)
get_user_by_cid-cid u cid (r ∷ rows) h = elim (Bool-cases (eqb_ℤ r.cid cid)) [
  | inl same ↦ ground (arith, same, eqb_ℤ_iff r.cid cid)
  | inr other ↦ get_user_by_cid-cid u cid rows (ground (arith, other))
]
