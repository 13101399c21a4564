-- ===== src/Users/Update.antt =====
-- What `updateUser` changes, and for whom.
use openfsd.Prelude.{
  ℕ, ◌≡◌, ◌≢◌, inl, inr, refl, sym, ap, ◌∙◌, true, false, List, [], Option, none, some, arith,
  Bool-cases,
}
use openfsd.Prelude.Bytes.{Bytes}
use openfsd.Prelude.Int.{ℤ, ◌≤ℤ◌, eqb_ℤ_iff}
use openfsd.Callsign.Facility.{supervisor}
use openfsd.Db.Users.{User, ok, Bcrypt, get_user_by_cid, hash_password}
use openfsd.Db.Users.Rows.{get_user-update_rows}
use openfsd.Users.Writes.{
  Result-cases, stored, update-IsWrite, update_ok_row, write_update_failure, write_update-success,
}
use openfsd.Users.{Claims, View, failure, success, view, UpdateBody, apply_body, update}

module _ (bcrypt : Bcrypt) (salt : ℕ) where
  hash_of_ok : (pw h : Bytes) → hash_password bcrypt salt pw ≡ ok h → bcrypt.hash salt pw ≡ some h
  unfolding hash_password
  hash_of_ok pw h hashed = ground arith

  verify_false :
      {plain pw h : Bytes}
      → bcrypt.hash salt pw ≡ some h
      → plain ≢ pw
      → (bcrypt.hash salt pw ≡ some h → bcrypt.verify plain h ≡ true → plain ≡ pw)
      → bcrypt.verify plain h ≡ false
  verify_false {plain} {h} hashed other law = elim (Bool-cases (bcrypt.verify plain h)) [
    | inl passes ↦ absurd (other (law hashed passes))
    | inr fails ↦ fails
  ]

  -- Whatever the claims and the body, a user with another CID stays as it was.
  pub update_others :
      (claims : Claims) (body : UpdateBody) (k : ℤ) (rows : List User)
      → k ≢ body.cid
      → get_user_by_cid k (update bcrypt salt claims (some body) rows).0 ≡ get_user_by_cid k rows
  update_others claims body k rows other =
      elim (update-IsWrite bcrypt salt claims body rows
        (update bcrypt salt claims (some body) rows).0 refl) [
          | inl same ↦ ap (get_user_by_cid k) same
          | inr (f, keeps, e) ↦
              ap (get_user_by_cid k) e
              ∙ get_user-update_rows body.cid k f rows keeps
              ∙ ground (arith, eqb_ℤ_iff k body.cid)
        ]

  -- An update that does not answer with the user leaves every row as it was.
  pub update_failure :
      (claims : Claims) (body : Option UpdateBody) (rows : List User) (status : ℕ)
      → (update bcrypt salt claims body rows).1 ≡ failure status
      → (update bcrypt salt claims body rows).0 ≡ rows
  unfolding update
  update_failure claims none rows status h = refl
  update_failure claims (some body) rows status h =
      elim (Result-cases (get_user_by_cid body.cid rows)) [
        | inl (e, missing) ↦ ground arith
        | inr (u, there) ↦
            ground (arith, write_update_failure bcrypt salt (apply_body body u) rows status)
      ]

  -- An update is answered with a user only where the caller is a supervisor or above, and the user
  -- of the request is in the table with a rating that does not pass the caller's; the answer is
  -- this user with the request's fields written over its own.
  pub update-success :
      (claims : Claims) (body : UpdateBody) (rows : List User) (v : View)
      → (update bcrypt salt claims (some body) rows).1 ≡ success v
      → (supervisor ≤ℤ claims.network_rating)
        × ((u : User) × (get_user_by_cid body.cid rows ≡ ok u)
            × (u.network_rating ≤ℤ claims.network_rating)
            × (v ≡ view (apply_body body u)))
  update-success claims body rows v h = elim (Result-cases (get_user_by_cid body.cid rows)) [
    | inl (e, missing) ↦ absurd (unfold update in ground arith)
    | inr (u, there) ↦
        unfold update in
        (
          ground arith,
          (
            u,
            there,
            ground arith,
            ground (arith, write_update-success bcrypt salt (apply_body body u) rows v),
          ),
        )
  ]

  -- A supervisor may give any user up to the supervisor's own rating any rating at all, above the
  -- supervisor's own too: the stored row has the rating of the request. The password that is
  -- written is not empty and can be hashed.
  pub update_grants_rating :
      (claims : Claims) (body : UpdateBody) (u : User) (rating : ℤ) (h : Bytes) (rows : List User)
      → supervisor ≤ℤ claims.network_rating
      → get_user_by_cid body.cid rows ≡ ok u
      → u.network_rating ≤ℤ claims.network_rating
      → body.network_rating ≡ some rating
      → (apply_body body u).password ≢ []
      → hash_password bcrypt salt (apply_body body u).password ≡ ok h
      → (w : User) × (get_user_by_cid body.cid (update bcrypt salt claims (some body) rows).0
          ≡ ok w)
        × (w.network_rating ≡ rating)
  update_grants_rating claims body u rating h rows may there below asked given hashed = (
    stored bcrypt salt (apply_body body u) h u,
    update_ok_row bcrypt salt claims body u h rows may there below given hashed,
    unfold apply_body in ground arith,
  )

  -- A supervisor's update that gives no password stores the hash of the old hash, so that a
  -- password other than the old hash itself does not verify against the new row: `hash` gives a
  -- text that only the hashed text verifies. The old hash is not empty and can be hashed.
  pub update_clobbers_password :
      (claims : Claims) (body : UpdateBody) (u : User) (h plain : Bytes) (rows : List User)
      → ((p q r : Bytes) → bcrypt.hash salt q ≡ some r → bcrypt.verify p r ≡ true → p ≡ q)
      → supervisor ≤ℤ claims.network_rating
      → get_user_by_cid body.cid rows ≡ ok u
      → u.network_rating ≤ℤ claims.network_rating
      → body.password ≡ none
      → u.password ≢ []
      → hash_password bcrypt salt u.password ≡ ok h
      → plain ≢ u.password
      → (w : User) × (get_user_by_cid body.cid (update bcrypt salt claims (some body) rows).0
          ≡ ok w)
        × (bcrypt.verify plain w.password ≡ false)
  update_clobbers_password claims body u h plain rows law may there below kept given hashed other =
      let same : (apply_body body u).password ≡ u.password = unfold apply_body in ground arith in
      (
        stored bcrypt salt (apply_body body u) h u,
        update_ok_row bcrypt salt claims body u h rows may there below (λ e. given (sym same ∙ e))
            (ap (hash_password bcrypt salt) same ∙ hashed),
        verify_false (hash_of_ok u.password h hashed) other (law plain u.password h),
      )
