-- ===== src/Session.antt =====
-- web/auth.go: the tokens of a login and their renewal, and the middleware that reads tokens. A
-- request body is none where it is no JSON of the wanted shape.
pub mod Issued
pub mod Kinds
pub mod Lasting
pub mod Given
pub mod Kick
mod Tests
use mathlib.Core.Option
use openfsd.Prelude.{ℕ, ◌-◌, ◌*◌, Bool, ◌||◌, not, List, [], Option, none, some, ltb, if◌then◌else◌}
use openfsd.Prelude.Bytes.{Bytes, codes, bytes_eq, cut_prefix?}
use openfsd.Prelude.Int.{ℤ, pos, ltb_ℤ, leb_ℤ}
use openfsd.Callsign.Facility.{suspended, administrator}
use openfsd.Db.Users.{User, Error, no_rows, ok, err, get_user_by_cid}
use openfsd.Db.Config.{Got, value, get, jwt_secret_key}
use openfsd.Users.{safe_str}
use openfsd.Fsd.Jwt
use openfsd.Fsd.Jwt.{CustomFields, CustomClaims, make_jwt_token, parse_jwt_token}
use openfsd.Fsd.Login.Authenticate.{Backend}
use openfsd.Fsd.Login.Read.{atoi?}

-- A response: a status with an error text, or what was asked for.
pub data Reply {ℓ} (A : Type ℓ) : Type ℓ where
  failure : ℕ → Bytes → Reply A
  success : A → Reply A

pub record LoginBody : Type 0 where
  pub cid : ℤ
  pub password : Bytes
  pub remember_me : Bool

pub record Tokens : Type 0 where
  pub access_token : Bytes
  pub refresh_token : Bytes

abbrev pub bad_body {ℓ} : {A : Type ℓ} → Reply A
bad_body = failure 400 (codes "invalid JSON body")

abbrev pub internal {ℓ} : {A : Type ℓ} → Reply A
internal = failure 500 (codes "internal server error")

abbrev pub or_internal {ℓ} : {A : Type ℓ} → Option A → Reply A
or_internal none = internal
or_internal (some a) = success a

-- The fields of a user's token of a kind.
abbrev pub fields_of : Bytes → User → CustomFields
fields_of kind user = record {
  token_type = kind;
  cid = user.cid;
  first_name = safe_str user.first_name;
  last_name = safe_str user.last_name;
  network_rating = user.network_rating;
}

-- What the middleware asks of the claims that it read.
abbrev pub access_claims : CustomClaims → Reply CustomClaims
access_claims claims =
    if not (bytes_eq claims.fields.token_type (codes "access"))
    then failure 401 (codes "invalid token type")
    else success claims

module _ (backend : Backend) where
  -- `MakeJwtToken`, then `SignedString`, which does not fail for this method.
  unfoldable pub signed_token : Bytes → Option Bytes → ℕ → CustomFields → ℕ → Option Bytes
  unfolding make_jwt_token
  signed_token secret id now fields validity =
      Option.map (backend.jwt.sign secret) (make_jwt_token id now fields validity)

  unfoldable pub make_access_token : Bytes → Option Bytes → ℕ → User → Option Bytes
  unfolding signed_token
  make_access_token secret id now user =
      signed_token secret id now (fields_of (codes "access") user) (15 * 60)

  unfoldable pub make_refresh_token : Bytes → Option Bytes → ℕ → Bool → User → Option Bytes
  unfolding signed_token
  make_refresh_token secret id now remember_me user =
      signed_token secret id now (fields_of (codes "refresh") user)
        (if remember_me then 24 * 3600 * 30 else 24 * 3600)

  abbrev pub both_tokens : Option Bytes → Option Bytes → Option Tokens
  both_tokens (some access) (some refresh) =
      some (record { access_token = access; refresh_token = refresh })
  both_tokens _ _ = none

  -- Two ids are drawn.
  unfoldable pub make_access_refresh_tokens :
      Option Bytes → Option Bytes → ℕ → Bool → User → Option Tokens
  unfolding make_access_token make_refresh_token
  make_access_refresh_tokens id id' now remember_me user =
      elim (get jwt_secret_key backend.settings) [
        | value secret ↦
            both_tokens (make_access_token secret id now user)
              (make_refresh_token secret id' now remember_me user)
        | _ ↦ none
      ]

  unfoldable pub check_login : Option Bytes → Option Bytes → ℕ → LoginBody → Reply Tokens
  unfolding make_access_refresh_tokens
  check_login id id' now body = elim (get_user_by_cid body.cid backend.users) [
    | err e ↦ failure 401 (codes "Bad CID and/or password")
    | ok user ↦
        if not (backend.bcrypt.verify body.password user.password)
        then failure 401 (codes "Bad CID and/or password")
        else or_internal (make_access_refresh_tokens id id' now body.remember_me user)
  ]

  -- The binding wants a CID of at least 1 and a password.
  unfoldable pub get_access_refresh_tokens :
      Option Bytes → Option Bytes → ℕ → Option LoginBody → Reply Tokens
  unfolding check_login
  get_access_refresh_tokens id id' now none = bad_body
  get_access_refresh_tokens id id' now (some body) =
      if ltb_ℤ body.cid (pos 1) || bytes_eq body.password []
      then bad_body
      else check_login id id' now body

  -- A new access token for a CID, whose user is read again.
  abbrev pub renewed : Option Bytes → ℕ → Bytes → ℤ → Reply Bytes
  renewed id now secret cid = elim (get_user_by_cid cid backend.users) [
    | err e ↦ failure 401 (codes "bad token")
    | ok user ↦ or_internal (make_access_token secret id now user)
  ]

  unfoldable pub refresh_claims : Option Bytes → ℕ → Bytes → CustomClaims → Reply Bytes
  unfolding make_access_token
  refresh_claims id now secret claims =
      if not (bytes_eq claims.fields.token_type (codes "refresh"))
      then failure 401 (codes "bad token")
      else renewed id now secret claims.fields.cid

  -- The binding wants a token.
  unfoldable pub refresh_access_token : Option Bytes → ℕ → Option Bytes → Reply Bytes
  unfolding refresh_claims
  refresh_access_token id now none = bad_body
  refresh_access_token id now (some token) =
      if bytes_eq token [] then bad_body else elim (get jwt_secret_key backend.settings) [
        | value secret ↦ elim (parse_jwt_token backend.jwt now token secret) [
          | none ↦ failure 401 (codes "bad token")
          | some claims ↦ refresh_claims id now secret claims
        ]
        | _ ↦ internal
      ]

  -- `jwtBearerMiddleware` on the Authorization header, empty where there is none.
  unfoldable pub jwt_bearer_middleware : ℕ → Bytes → Reply CustomClaims
  jwt_bearer_middleware now header = elim (cut_prefix? header (codes "Bearer ")) [
    | none ↦ failure 400 (codes "bad bearer token")
    | some token ↦ elim (get jwt_secret_key backend.settings) [
      | value secret ↦ elim (parse_jwt_token backend.jwt now token secret) [
        | none ↦ failure 401 (codes "invalid bearer token")
        | some claims ↦ access_claims claims
      ]
      | _ ↦ internal
    ]
  ]
