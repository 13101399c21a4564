-- ===== src/Session/Kinds.antt =====
-- web/auth.go, fsd/conn.go: which tokens open which door.
use openfsd.Prelude.{
  ℕ, ◌+◌, ◌-◌, ◌≤◌, ◌<◌, ◌≡◌, refl, ◌∙◌, Bool, true, false, not, ◌++◌, Option, some, [], arith,
  if◌then◌else◌,
}
use openfsd.Prelude.Bytes.{Bytes, codes, bytes_eq, bytes_eq_of_ne, cut_prefix?-append}
use openfsd.Packet.Code
use openfsd.Db.Config.{value, get, jwt_secret_key}
use openfsd.Fsd.Env.{Env}
use openfsd.Fsd.Client.{Client}
use openfsd.Fsd.Jwt
use openfsd.Fsd.Jwt.{CustomFields, CustomClaims, issuer, make_jwt_token, parse_jwt_token}
use openfsd.Fsd.Login.Authenticate.{
  Backend, deny, invalid_logon_msg, check_subject, check_claims, authenticate_token,
}
use openfsd.Session.{
  failure, success, access_claims, signed_token, renewed, refresh_claims, refresh_access_token,
  jwt_bearer_middleware,
}

-- The claims of a token made at a time with an id.
abbrev pub claims_at : Bytes → ℕ → CustomFields → ℕ → CustomClaims
claims_at id now fields validity = record {
  token_issuer = issuer;
  expires_at = now + validity;
  not_before = now - 30;
  issued_at = now;
  token_id = id;
  fields = fields;
}

if_not {ℓ} : {A : Type ℓ} (b : Bool) (x y : A) → (if not b then y else x) ≡ (if b then x else y)
if_not true x y = refl
if_not false x y = refl

module _ (backend : Backend) (laws : Jwt.Laws backend.jwt) (secret : Bytes)
    (stored : get jwt_secret_key backend.settings ≡ value secret) where
  module _ (id : Bytes) (now validity t : ℕ) (fields : CustomFields) (after : now ≤ t + 30)
      (before : t < now + validity) where
    abbrev token : Bytes
    token = backend.jwt.sign secret (claims_at id now fields validity)

    pub parses :
        parse_jwt_token backend.jwt t token secret ≡ some (claims_at id now fields validity)
    unfolding parse_jwt_token
    parses = laws.parse-sign t secret (claims_at id now fields validity) (omega arith) before

    pub middleware_reads :
        jwt_bearer_middleware backend t (codes "Bearer " ++ token)
        ≡ access_claims (claims_at id now fields validity)
    unfolding jwt_bearer_middleware
    middleware_reads =
        rw (jwt_bearer_middleware, cut_prefix?-append (codes "Bearer ") token, stored, parses) refl

    pub refresh_reads :
        (id' : Option Bytes)
        → refresh_access_token backend id' t (some token)
          ≡ refresh_claims backend id' t secret (claims_at id now fields validity)
    unfolding refresh_access_token
    refresh_reads id' =
        rw (bytes_eq_of_ne token [] (laws.sign-ne-nil secret _), stored, parses) refl

    pub login_reads :
        (env : Env) (c : Client env)
        → authenticate_token env backend t token c
          ≡ check_claims env (claims_at id now fields validity) c
    unfolding authenticate_token
    login_reads env c = rw (authenticate_token, stored, parses) refl

  -- A token that the server signed opens, as long as it lasts, exactly the door of its kind: the
  -- middleware hands on the claims of an access token, a refresh renews the access of the CID in a
  -- refresh token, an FSD login looks at the CID and rating of an fsd token, and each of the three
  -- refuses every other kind.
  pub token_kinds :
      (env : Env) (c : Client env) (id : Bytes) (id' : Option Bytes) (now validity t : ℕ)
      (fields : CustomFields)
      → now ≤ t + 30
      → t < now + validity
      → let claims = claims_at id now fields validity in
        let token = backend.jwt.sign secret claims in
        (signed_token backend secret (some id) now fields validity ≡ some token)
        × (jwt_bearer_middleware backend t (codes "Bearer " ++ token) ≡ (
            if bytes_eq fields.token_type (codes "access")
            then success claims
            else failure 401 (codes "invalid token type")))
        × (refresh_access_token backend id' t (some token) ≡ (
            if bytes_eq fields.token_type (codes "refresh")
            then renewed backend id' t secret fields.cid
            else failure 401 (codes "bad token")))
        × (authenticate_token env backend t token c ≡ (
            if bytes_eq fields.token_type (codes "fsd")
            then check_subject env claims c
            else deny env Code.invalid_logon invalid_logon_msg))
  unfolding signed_token make_jwt_token refresh_claims check_claims
  token_kinds env c id id' now validity t fields after before = (
    refl,
    middleware_reads id now validity t fields after before
        ∙ if_not (bytes_eq fields.token_type (codes "access"))
            (success (claims_at id now fields validity)) (failure 401 (codes "invalid token type")),
    refresh_reads id now validity t fields after before id'
        ∙ if_not (bytes_eq fields.token_type (codes "refresh"))
            (renewed backend id' t secret fields.cid) (failure 401 (codes "bad token")),
    login_reads id now validity t fields after before env c
        ∙ if_not (bytes_eq fields.token_type (codes "fsd"))
            (check_subject env (claims_at id now fields validity) c)
            (deny env Code.invalid_logon invalid_logon_msg),
  )
