-- ===== src/Users.antt =====
-- web/user.go: the endpoints that read, change and create users. A request body is none where
-- gin's binding refuses it: no JSON, or a value against its binding tag.
pub mod Writes
pub mod Update
pub mod Access
mod Tests
use mathlib.Core.Option
use openfsd.Prelude.{ℕ, Bool, ◌&&◌, ◌||◌, not, List, [], Option, none, some, if◌then◌else◌}
use openfsd.Prelude.Bytes.{Bytes}
use openfsd.Prelude.Int.{ℤ, pos, ltb_ℤ, eqb_ℤ}
use openfsd.Callsign.Facility.{supervisor}
use openfsd.Db.Users.{
  User, Table, no_rows, bad_password, hash_failed, Error, Result, ok, err, Bcrypt, get_user_by_cid,
  update_user, create_user,
}

-- The claims of the caller's access token that the handlers read.
pub record Claims : Type 0 where
  pub cid : ℤ
  pub network_rating : ℤ

-- The user of a response body, without the password; a null name is the empty text.
pub record View : Type 0 where
  pub cid : ℤ
  pub first_name : Bytes
  pub last_name : Bytes
  pub network_rating : ℤ

-- The same of `createUser`, which answers a null name as null.
pub record Made : Type 0 where
  pub cid : ℤ
  pub first_name : Option Bytes
  pub last_name : Option Bytes
  pub network_rating : ℤ

-- A failure's status, the user of a 200, or the user of a 201.
pub data Response : Type 0 where
  failure : ℕ → Response
  success : View → Response
  created : Made → Response

-- `safeStr`.
abbrev pub safe_str : Option Bytes → Bytes
safe_str none = []
safe_str (some s) = s

abbrev pub view : User → View
view u = record {
  cid = u.cid;
  first_name = safe_str u.first_name;
  last_name = safe_str u.last_name;
  network_rating = u.network_rating;
}

-- A failed statement: 404 where no row was there, else 500.
abbrev pub db_failure : Error → Response
db_failure no_rows = failure 404
db_failure _ = failure 500

-- `getUserByCID`.
unfoldable pub get_user : Claims → Option ℤ → List User → Response
get_user claims none rows = failure 400
get_user claims (some cid) rows =
    if not (eqb_ℤ cid claims.cid) && ltb_ℤ claims.network_rating supervisor
    then failure 403
    else elim (get_user_by_cid cid rows) [ err e ↦ db_failure e | ok u ↦ success (view u) ]

-- The body of `updateUser`: a field that is not given is none.
pub record UpdateBody : Type 0 where
  pub cid : ℤ
  pub password : Option Bytes
  pub first_name : Option Bytes
  pub last_name : Option Bytes
  pub network_rating : Option ℤ

abbrev or_else {ℓ} : {A : Type ℓ} → Option A → Option A → Option A
or_else none b = b
or_else (some a) b = some a

-- The fields that the request gives, written over those of the user read from the table. That
-- user's password is its stored hash.
unfoldable pub apply_body : UpdateBody → User → User
apply_body body u = record u {
  password = Option.get_or body.password u.password;
  first_name = or_else body.first_name u.first_name;
  last_name = or_else body.last_name u.last_name;
  network_rating = Option.get_or body.network_rating u.network_rating;
}

-- The body of `createUser`.
pub record CreateBody : Type 0 where
  pub password : Bytes
  pub first_name : Option Bytes
  pub last_name : Option Bytes
  pub network_rating : ℤ

-- The user that the body asks for; the CID is not yet known.
abbrev pub asked : CreateBody → User
asked body = record {
  cid = pos 0;
  password = body.password;
  first_name = body.first_name;
  last_name = body.last_name;
  network_rating = body.network_rating;
}

abbrev pub made_of : User → Made
made_of u = record {
  cid = u.cid;
  first_name = u.first_name;
  last_name = u.last_name;
  network_rating = u.network_rating;
}

module _ (bcrypt : Bcrypt) (salt : ℕ) where
  -- The write at the end of `updateUser`.
  unfoldable pub write_update : User → List User → List User × Response
  write_update u rows = elim (update_user bcrypt salt u rows) [
    | err e ↦ (rows, db_failure e)
    | ok rows' ↦ (rows', success (view u))
  ]

  -- `updateUser`.
  unfoldable pub update : Claims → Option UpdateBody → List User → List User × Response
  unfolding apply_body write_update
  update claims none rows =
      (rows, if ltb_ℤ claims.network_rating supervisor then failure 403 else failure 400)
  update claims (some body) rows =
      if ltb_ℤ claims.network_rating supervisor
      then (rows, failure 403)
      else elim (get_user_by_cid body.cid rows) [
        | err e ↦ (rows, failure 404)
        | ok u ↦
            if ltb_ℤ claims.network_rating u.network_rating
            then (rows, failure 403)
            else write_update (apply_body body u) rows
      ]

  -- `createUser`.
  unfoldable pub create : Claims → Option CreateBody → Table → Table × Response
  create claims none table = (table, failure 400)
  create claims (some body) table =
      if ltb_ℤ claims.network_rating supervisor || ltb_ℤ claims.network_rating body.network_rating
      then (table, failure 403)
      else elim (create_user bcrypt salt (asked body) table) [
        | err e ↦ (table, failure 500)
        | ok made ↦ (made.0, created (made_of made.1))
      ]
