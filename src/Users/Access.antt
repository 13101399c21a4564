-- ===== src/Users/Access.antt =====
-- Who may read and create users.
use openfsd.Prelude.{ℕ, ◌≡◌, ◌≢◌, ◌⊎◌, inl, inr, refl, List, [], ◌∷◌, ◌++◌, some, arith, All}
use openfsd.Prelude.Int.{ℤ, pos, ◌≤ℤ◌, eqb_ℤ_iff}
use openfsd.Callsign.Facility.{supervisor}
use openfsd.Db.Users.{User, Table, ok, Bcrypt, get_user_by_cid, create_user, hash_password, new_row}
use openfsd.Users.Writes.{Result-cases, db_failure-ne-success}
use openfsd.Users.{Claims, View, Made, success, created, view, get_user, CreateBody, create, asked}

-- Only the user itself, or a supervisor or above, is answered with a user, and the answer is the
-- stored one.
pub get_user-success :
    (claims : Claims) (cid : ℤ) (rows : List User) (v : View)
    → get_user claims (some cid) rows ≡ success v
    → ((cid ≡ claims.cid) ⊎ (supervisor ≤ℤ claims.network_rating))
      × ((u : User) × (get_user_by_cid cid rows ≡ ok u) × (v ≡ view u))
unfolding get_user
get_user-success claims cid rows v h = elim (Result-cases (get_user_by_cid cid rows)) [
  | inl (e, missing) ↦ absurd (db_failure-ne-success e v (ground arith))
  | inr (u, there) ↦ (ground (arith, eqb_ℤ_iff cid claims.cid), (u, there, ground arith))
]

get_user-append :
    (cid : ℤ) (rows : List User) (u : User)
    → All (λ v. v.cid ≢ cid) rows
    → u.cid ≡ cid
    → get_user_by_cid cid (rows ++ u ∷ []) ≡ ok u
unfolding get_user_by_cid
get_user-append cid [] u fresh same = ground (arith, eqb_ℤ_iff u.cid cid)
get_user-append cid (v ∷ rows) u (p, fresh) same =
    ground (arith, eqb_ℤ_iff v.cid cid, get_user-append cid rows u fresh same)

-- A table whose next CID is not taken.
abbrev pub IsFresh : Table → Type 0
IsFresh table = All (λ u. u.cid ≢ pos table.next_cid) table.rows

module _ (bcrypt : Bcrypt) (salt : ℕ) where
  -- Where the table's next CID is free, a creation succeeds only for a supervisor or above, and
  -- with no rating above the caller's; the user that is answered is then in the table under its
  -- CID, with the rating of the request and the hash of the password that was given.
  pub create_success :
      (claims : Claims) (body : CreateBody) (table : Table) (made : Made)
      → IsFresh table
      → (create bcrypt salt claims (some body) table).1 ≡ created made
      → (supervisor ≤ℤ claims.network_rating)
        × (body.network_rating ≤ℤ claims.network_rating)
        × (made.network_rating ≡ body.network_rating)
        × ((u : User) × (get_user_by_cid made.cid
                (create bcrypt salt claims (some body) table).0.rows
              ≡ ok u)
            × (u.network_rating ≡ body.network_rating)
            × (hash_password bcrypt salt body.password ≡ ok u.password))
  create_success claims body table made fresh h =
      elim (Result-cases (hash_password bcrypt salt body.password)) [
        | inl (e, bad) ↦ absurd (unfold create create_user in ground arith)
        | inr (hash, good) ↦
            unfold create create_user in
            (
              ground arith,
              ground arith,
              ground arith,
              (
                new_row (pos table.next_cid) hash (asked body),
                ground (
                  arith,
                  get_user-append (pos table.next_cid) table.rows
                      (new_row (pos table.next_cid) hash (asked body)) fresh refl,
                ),
                refl,
                good,
              ),
            )
      ]
