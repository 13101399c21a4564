-- ===== src/Db/Users.antt =====
-- db/user_repository.go and db/user_sqlite.go: the table of users. user_postgres.go is not modelled: its
-- insertion lists four columns and five values.
pub mod Rows
use openfsd.Prelude.{
  ℕ, ◌+◌, Bool, true, false, List, [], ◌∷◌, ◌++◌, Option, none, some, any, ◌==◌, if◌then◌else◌,
}
use openfsd.Prelude.Bytes.{Bytes}
use openfsd.Prelude.Int.{ℤ, pos, eqb_ℤ}

-- `password` is the stored hash in a row, and clear text in a user that is to be written.
pub record User : Type 0 where
  pub cid : ℤ
  pub password : Bytes
  pub first_name : Option Bytes
  pub last_name : Option Bytes
  pub network_rating : ℤ

pub data Error : Type 0 where
  no_rows bad_password hash_failed : Error

pub data Result {ℓ} (A : Type ℓ) : Type ℓ where
  ok : A → Result A
  err : Error → Result A

-- bcrypt, which is not part of the repository: `hash` has the salt that it draws as its first
-- argument, and fails on a text that is too long; `verify` takes the clear text and the hash.
pub record Bcrypt : Type 0 where
  pub hash : ℕ → Bytes → Option Bytes
  pub verify : Bytes → Bytes → Bool

-- `strings.Contains(password, ":")`.
abbrev pub has_colon : Bytes → Bool
has_colon s = any (λ c. c == b':') s

-- `WHERE cid = $1`.
unfoldable pub get_user_by_cid : ℤ → List User → Result User
get_user_by_cid cid [] = err no_rows
get_user_by_cid cid (u ∷ rows) = if eqb_ℤ u.cid cid then ok u else get_user_by_cid cid rows

-- `UPDATE users SET ... WHERE cid = ?`; the CID is the table's primary key.
unfoldable pub update_rows : ℤ → (User → User) → List User → List User
update_rows cid f [] = []
update_rows cid f (u ∷ rows) = if eqb_ℤ u.cid cid then f u ∷ rows else u ∷ update_rows cid f rows

-- The statement's error: a table without the row has no row affected.
unfoldable pub write_row : ℤ → (User → User) → List User → Result (List User)
unfolding get_user_by_cid update_rows
write_row cid f rows = elim (get_user_by_cid cid rows) [
  | err e ↦ err e
  | ok u ↦ ok (update_rows cid f rows)
]

abbrev pub set_names : User → User → User
set_names user row = record row {
  first_name = user.first_name;
  last_name = user.last_name;
  network_rating = user.network_rating;
}

-- The new row: its CID is the table's next.
abbrev pub new_row : ℤ → Bytes → User → User
new_row cid hash user = record user { cid = cid; password = hash }

-- The table with the CID that AUTOINCREMENT gives next.
pub record Table : Type 0 where
  pub rows : List User
  pub next_cid : ℕ

module _ (bcrypt : Bcrypt) (salt : ℕ) where
  -- `bcrypt.GenerateFromPassword`, behind the test for colons.
  unfoldable pub hash_password : Bytes → Result Bytes
  hash_password password =
      if has_colon password
      then err bad_password
      else elim (bcrypt.hash salt password) [ none ↦ err hash_failed | some h ↦ ok h ]

  -- `UpdateUser`: the first argument is the new password, and an empty one stays out of the update.
  unfoldable pub update_with : Bytes → User → List User → Result (List User)
  unfolding write_row
  update_with [] user rows = write_row user.cid (set_names user) rows
  update_with (c ∷ s) user rows = elim (hash_password (c ∷ s)) [
    | err e ↦ err e
    | ok h ↦ write_row user.cid (λ row. record (set_names user row) { password = h }) rows
  ]

  unfoldable pub update_user : User → List User → Result (List User)
  unfolding update_with
  update_user user rows = update_with user.password user rows

  -- `CreateUser`: the table, and the user with the CID that was given out.
  unfoldable pub create_user : User → Table → Result (Table × User)
  create_user user table = elim (hash_password user.password) [
    | err e ↦ err e
    | ok h ↦ ok (
      record {
        rows = table.rows ++ new_row (pos table.next_cid) h user ∷ [];
        next_cid = table.next_cid + 1;
      },
      record user { cid = pos table.next_cid },
    )
  ]
