-- ===== src/Users/Writes.antt =====
-- The writes behind `updateUser`: which rows they touch and what they leave.
use openfsd.Prelude.{
  ℕ, ◌≡◌, ◌≢◌, ◌⊎◌, inl, inr, refl, ap, ◌∙◌, false, List, [], ◌∷◌, some, arith, Bool-cases,
}
use openfsd.Prelude.Bytes.{Bytes}
use openfsd.Prelude.Int.{ℤ, ◌≤ℤ◌, ltb_ℤ, eqb_ℤ_iff}
use openfsd.Callsign.Facility.{supervisor}
use openfsd.Db.Users.{
  User, no_rows, Error, Result, ok, err, Bcrypt, get_user_by_cid, update_rows, hash_password,
  update_with, update_user, set_names, write_row,
}
use openfsd.Db.Users.Rows.{get_user-update_rows}
use openfsd.Users.{
  Claims, View, failure, success, view, db_failure, UpdateBody, apply_body, update, write_update,
}

pub Result-cases {ℓ} :
    {A : Type ℓ} (r : Result A) → ((e : Error) × (r ≡ err e)) ⊎ ((a : A) × (r ≡ ok a))
Result-cases (ok a) = inr (a, refl)
Result-cases (err e) = inl (e, refl)

pub db_failure-ne-success : (e : Error) (v : View) → db_failure e ≢ success v
db_failure-ne-success no_rows v h = cc
db_failure-ne-success _ v h = cc

pub cid-get_user_by_cid :
    (cid : ℤ) (rows : List User) (u : User) → get_user_by_cid cid rows ≡ ok u → u.cid ≡ cid
unfolding get_user_by_cid
cid-get_user_by_cid cid [] u h = absurd (ground arith)
cid-get_user_by_cid cid (v ∷ rows) u h =
    ground (arith, eqb_ℤ_iff v.cid cid, cid-get_user_by_cid cid rows u)

module _ (bcrypt : Bcrypt) (salt : ℕ) where
  -- The row that an update with a password to store leaves.
  abbrev pub stored : User → Bytes → User → User
  stored u h row = record (set_names u row) { password = h }

  update_with_ok :
      (pw : Bytes) (u v : User) (h : Bytes) (rows : List User)
      → pw ≢ []
      → hash_password bcrypt salt pw ≡ ok h
      → get_user_by_cid u.cid rows ≡ ok v
      → update_with bcrypt salt pw u rows ≡ ok (update_rows u.cid (stored u h) rows)
  unfolding update_with write_row
  update_with_ok [] u v h rows given hashed there = absurd (given refl)
  update_with_ok (c ∷ s) u v h rows given hashed there = ground arith

  write_update_ok :
      (u v : User) (h : Bytes) (rows : List User)
      → u.password ≢ []
      → hash_password bcrypt salt u.password ≡ ok h
      → get_user_by_cid u.cid rows ≡ ok v
      → write_update bcrypt salt u rows ≡ (update_rows u.cid (stored u h) rows, success (view u))
  write_update_ok u v h rows given hashed there =
      let done = update_with_ok u.password u v h rows given hashed there in
      unfold write_update update_user in ground (arith, done)

  pub update_ok :
      (claims : Claims) (body : UpdateBody) (u : User) (h : Bytes) (rows : List User)
      → supervisor ≤ℤ claims.network_rating
      → get_user_by_cid body.cid rows ≡ ok u
      → u.network_rating ≤ℤ claims.network_rating
      → (apply_body body u).password ≢ []
      → hash_password bcrypt salt (apply_body body u).password ≡ ok h
      → update bcrypt salt claims (some body) rows ≡ (
        update_rows body.cid (stored (apply_body body u) h) rows,
        success (view (apply_body body u)),
      )
  unfolding update
  update_ok claims body u h rows may there below given hashed =
      let same = cid-get_user_by_cid body.cid rows u there in
      let same_new : (apply_body body u).cid ≡ body.cid = unfold apply_body in same in
      let written =
        write_update_ok (apply_body body u) u h rows given hashed
          (ap (λ c. get_user_by_cid c rows) same_new ∙ there) in
      ground (arith, written, same_new)

  -- Rows written under a CID, none of them moved to another.
  abbrev pub IsWrite : ℤ → List User → List User → Type 0
  IsWrite cid rows rows' =
      (f : User → User) × ((w : User) → (f w).cid ≡ w.cid) × (rows' ≡ update_rows cid f rows)

  write_row-IsWrite :
      (cid : ℤ) (f : User → User) (rows rows' : List User)
      → ((w : User) → (f w).cid ≡ w.cid)
      → write_row cid f rows ≡ ok rows'
      → IsWrite cid rows rows'
  unfolding write_row
  write_row-IsWrite cid f rows rows' keeps h = (f, keeps, ground arith)

  update_with-IsWrite :
      (pw : Bytes) (u : User) (rows rows' : List User)
      → update_with bcrypt salt pw u rows ≡ ok rows'
      → IsWrite u.cid rows rows'
  update_with-IsWrite [] u rows rows' h =
      write_row-IsWrite u.cid (set_names u) rows rows' (λ w. refl) (unfold update_with in h)
  update_with-IsWrite (c ∷ s) u rows rows' h =
      elim (Result-cases (hash_password bcrypt salt (c ∷ s))) [
        | inl (e, bad) ↦ absurd (unfold update_with in ground arith)
        | inr (hash, good) ↦
            write_row-IsWrite u.cid (stored u hash) rows rows' (λ w. refl)
              (unfold update_with in ground arith)
      ]

  IsWrite-done :
      (claims : Claims) (body : UpdateBody) (u : User) (rows rows' written : List User)
      → (update bcrypt salt claims (some body) rows).0 ≡ rows'
      → ltb_ℤ claims.network_rating supervisor ≡ false
      → get_user_by_cid body.cid rows ≡ ok u
      → ltb_ℤ claims.network_rating u.network_rating ≡ false
      → update_user bcrypt salt (apply_body body u) rows ≡ ok written
      → IsWrite body.cid rows rows'
  IsWrite-done claims body u rows rows' written h may there below done =
      let (f, keeps, e) =
        update_with-IsWrite (apply_body body u).password (apply_body body u) rows written
          (unfold update_user in done) in
      let same_cid : (apply_body body u).cid ≡ body.cid =
        unfold apply_body in cid-get_user_by_cid body.cid rows u there in
      let same_rows : rows' ≡ written = unfold update write_update in ground arith in
      (f, keeps, same_rows ∙ e ∙ ap (λ c. update_rows c f rows) same_cid)

  pub update-IsWrite :
      (claims : Claims) (body : UpdateBody) (rows rows' : List User)
      → (update bcrypt salt claims (some body) rows).0 ≡ rows'
      → (rows' ≡ rows) ⊎ IsWrite body.cid rows rows'
  update-IsWrite claims body rows rows' h =
      elim (Bool-cases (ltb_ℤ claims.network_rating supervisor)) [
        | inl low ↦ inl (unfold update in ground arith)
        | inr may ↦ elim (Result-cases (get_user_by_cid body.cid rows)) [
          | inl (e, missing) ↦ inl (unfold update in ground arith)
          | inr (u, there) ↦ elim (Bool-cases (ltb_ℤ claims.network_rating u.network_rating)) [
            | inl above ↦ inl (unfold update in ground arith)
            | inr below ↦ elim (Result-cases (update_user bcrypt salt (apply_body body u) rows)) [
              | inl (e, failed) ↦ inl (unfold update write_update in ground arith)
              | inr (written, done) ↦
                  inr (IsWrite-done claims body u rows rows' written h may there below done)
            ]
          ]
        ]
      ]

  -- The row that such an update leaves under the user's CID.
  pub update_ok_row :
      (claims : Claims) (body : UpdateBody) (u : User) (h : Bytes) (rows : List User)
      → supervisor ≤ℤ claims.network_rating
      → get_user_by_cid body.cid rows ≡ ok u
      → u.network_rating ≤ℤ claims.network_rating
      → (apply_body body u).password ≢ []
      → hash_password bcrypt salt (apply_body body u).password ≡ ok h
      → get_user_by_cid body.cid (update bcrypt salt claims (some body) rows).0
        ≡ ok (stored (apply_body body u) h u)
  update_ok_row claims body u h rows may there below given hashed =
      ap (λ r. get_user_by_cid body.cid r.0)
        (update_ok claims body u h rows may there below given hashed)
      ∙ get_user-update_rows body.cid body.cid (stored (apply_body body u) h) rows (λ w. refl)
      ∙ ground (arith, eqb_ℤ_iff body.cid body.cid)

  pub write_update_failure :
      (u : User) (rows : List User) (status : ℕ)
      → (write_update bcrypt salt u rows).1 ≡ failure status
      → (write_update bcrypt salt u rows).0 ≡ rows
  unfolding write_update
  write_update_failure u rows status h = ground arith

  pub write_update-success :
      (u : User) (rows : List User) (v : View)
      → (write_update bcrypt salt u rows).1 ≡ success v
      → v ≡ view u
  unfolding write_update
  write_update-success u rows v h = elim (Result-cases (update_user bcrypt salt u rows)) [
    | inl (e, failed) ↦ absurd (db_failure-ne-success e v (ground arith))
    | inr (written, done) ↦ ground arith
  ]
