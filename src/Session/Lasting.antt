-- ===== src/Session/Lasting.antt =====
-- web/auth.go: what a login leads to.
use openfsd.Prelude.{
  ℕ, ◌+◌, ◌*◌, ◌≤◌, ◌<◌, ◌≡◌, refl, ap, ◌∙◌, Bool, true, ◌++◌, some, arith, if◌then◌else◌,
}
use openfsd.Prelude.Bytes.{Bytes, codes, bytes_eq}
use openfsd.Db.Users.{User, Result, ok, err, get_user_by_cid}
use openfsd.Db.Users.Rows.{get_user_by_cid-cid}
use openfsd.Db.Config.{Got, value, key_not_found, failed, get, jwt_secret_key}
use openfsd.Fsd.Jwt
use openfsd.Fsd.Jwt.{CustomFields, CustomClaims, make_jwt_token}
use openfsd.Fsd.Login.Authenticate.{Backend}
use openfsd.Session.{
  failure, success, LoginBody, Tokens, fields_of, signed_token, make_access_token,
  make_refresh_token, make_access_refresh_tokens, check_login, get_access_refresh_tokens, renewed,
  refresh_claims, refresh_access_token, jwt_bearer_middleware,
}
use openfsd.Session.Kinds.{claims_at, middleware_reads, refresh_reads}

-- How long a refresh token lasts.
abbrev pub refresh_validity : Bool → ℕ
refresh_validity remember_me = if remember_me then 24 * 3600 * 30 else 24 * 3600

module _ (backend : Backend) (i j : Bytes) (now : ℕ) (body : LoginBody) (tokens : Tokens) where
  abbrev access_of : User → CustomClaims
  access_of user = claims_at i now (fields_of (codes "access") user) (15 * 60)

  abbrev refresh_of : User → CustomClaims
  refresh_of user =
      claims_at j now (fields_of (codes "refresh") user) (refresh_validity body.remember_me)

  record LoggedIn : Type 0 where
    user : User
    secret : Bytes
    known : get_user_by_cid body.cid backend.users ≡ ok user
    verified : backend.bcrypt.verify body.password user.password ≡ true
    stored : get jwt_secret_key backend.settings ≡ value secret
    access : tokens.access_token ≡ backend.jwt.sign secret (access_of user)
    refresh : tokens.refresh_token ≡ backend.jwt.sign secret (refresh_of user)

  logged_in_with :
      (r : Result User) (g : Got)
      → get_user_by_cid body.cid backend.users ≡ r
      → get jwt_secret_key backend.settings ≡ g
      → check_login backend (some i) (some j) now body ≡ success tokens
      → LoggedIn
  unfolding check_login make_access_refresh_tokens make_access_token make_refresh_token signed_token
      make_jwt_token
  logged_in_with (err e) g p q h = absurd (ground (arith, p))
  logged_in_with (ok user) key_not_found p q h = absurd (ground (arith, p, q))
  logged_in_with (ok user) failed p q h = absurd (ground (arith, p, q))
  logged_in_with (ok user) (value secret) p q h = record {
    user = user;
    secret = secret;
    known = p;
    verified = ground (arith, p, q);
    stored = q;
    access = ground (arith, p, q);
    refresh = ground (arith, p, q);
  }

  logged_in :
      get_access_refresh_tokens backend (some i) (some j) now (some body) ≡ success tokens
      → LoggedIn
  unfolding get_access_refresh_tokens
  logged_in h = logged_in_with _ _ refl refl (ground arith)

renews :
    (backend : Backend) (k secret : Bytes) (t : ℕ) (user : User)
    → get_user_by_cid user.cid backend.users ≡ ok user
    → renewed backend (some k) t secret user.cid
      ≡ success
          (backend.jwt.sign secret (claims_at k t (fields_of (codes "access") user) (15 * 60)))
unfolding make_access_token signed_token make_jwt_token
renews backend k secret t user again = ground (arith, again)

-- A login that succeeds was of a user of the database whose hash fits the password. Its access token
-- then passes the middleware for fifteen minutes as that user, its refresh token never passes it, and
-- a refresh within the refresh token's day, or thirty days with the mark to be remembered, gives a
-- new access token that passes the middleware as the same user.
pub login_lasts :
    (backend : Backend) (laws : Jwt.Laws backend.jwt) (i j k : Bytes) (now t t' : ℕ)
    (body : LoginBody) (tokens : Tokens)
    → get_access_refresh_tokens backend (some i) (some j) now (some body) ≡ success tokens
    → now ≤ t + 30
    → t < now + 15 * 60
    → now ≤ t' + 30
    → t' < now + refresh_validity body.remember_me
    → (user : User) × (renewed_token : Bytes) × (get_user_by_cid body.cid backend.users ≡ ok user)
      × (backend.bcrypt.verify body.password user.password ≡ true)
      × (jwt_bearer_middleware backend t (codes "Bearer " ++ tokens.access_token)
          ≡ success (claims_at i now (fields_of (codes "access") user) (15 * 60)))
      × (jwt_bearer_middleware backend t' (codes "Bearer " ++ tokens.refresh_token)
          ≡ failure 401 (codes "invalid token type"))
      × (refresh_access_token backend (some k) t' (some tokens.refresh_token)
          ≡ success renewed_token)
      × (jwt_bearer_middleware backend t' (codes "Bearer " ++ renewed_token)
          ≡ success (claims_at k t' (fields_of (codes "access") user) (15 * 60)))
unfolding refresh_claims make_access_token signed_token make_jwt_token bytes_eq
login_lasts backend laws i j k now t t' body tokens h a b a' b' =
    let l : LoggedIn backend i j now body tokens = logged_in backend i j now body tokens h in
    let fields = fields_of (codes "refresh") l.user in
    let renewed_claims = claims_at k t' (fields_of (codes "access") l.user) (15 * 60) in
    let same = get_user_by_cid-cid l.user body.cid backend.users l.known in
    let again = ap (λ c. get_user_by_cid c backend.users) same ∙ l.known in
    (
      l.user,
      backend.jwt.sign l.secret renewed_claims,
      l.known,
      l.verified,
      ap (λ s. jwt_bearer_middleware backend t (codes "Bearer " ++ s)) l.access
          ∙ middleware_reads backend laws l.secret l.stored i now (15 * 60) t _ a b,
      ap (λ s. jwt_bearer_middleware backend t' (codes "Bearer " ++ s)) l.refresh
          ∙ middleware_reads backend laws l.secret l.stored j now _ t' fields a' b',
      ap (λ s. refresh_access_token backend (some k) t' (some s)) l.refresh
          ∙ refresh_reads backend laws l.secret l.stored j now _ t' fields a' b' (some k)
          ∙ renews backend k l.secret t' l.user again,
      middleware_reads backend laws l.secret l.stored k t' (15 * 60) t' _ (omega arith)
          (omega arith),
    )
