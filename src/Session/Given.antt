-- ===== src/Session/Given.antt =====
-- web/auth.go, web/api_tokens.go: what FSD tokens and API tokens are good for.
use openfsd.Prelude.{
  ℕ, min, ◌+◌, ◌*◌, ◌≤◌, ◌<◌, ◌≡◌, ◌≢◌, refl, ap, ◌∙◌, inl, inr, true, ◌++◌, [], none, some, arith,
  ltb, ltb→lt, Bool-cases, if◌then◌else◌,
}
use openfsd.Prelude.Bytes.{Bytes, codes, bytes_eq, bytes_eq_of_ne, cut_prefix?-append}
use openfsd.Prelude.Int.{ℤ, pos, ◌≤ℤ◌}
use openfsd.Prelude.Decimal.{print_int, parse_int}
use openfsd.Callsign.Facility.{observer, administrator}
use openfsd.Db.Users.{User, ok, get_user_by_cid}
use openfsd.Db.Config.{value, get, jwt_secret_key}
use openfsd.Fsd.Env.{Env}
use openfsd.Fsd.Client.{Client}
use openfsd.Fsd.Jwt
use openfsd.Fsd.Jwt.{
  CustomFields, CustomClaims, issuer, make_jwt_token, most_likely_jwt, parse_jwt_token,
}
use openfsd.Fsd.Login.Authenticate.{
  Backend, granted, check_software, authenticate_with, attempt_authentication,
}
use openfsd.Fsd.Login.Vouching.{by_token}
use openfsd.Fsd.Login.Entered.{granted-Vouched}
use openfsd.Fsd.Login.Read.{atoi?}
use openfsd.Fsd.Login.FieldsRead.{IsInt64, atoi?-print_int}
use openfsd.Session.{failure, success, fields_of, signed_token, jwt_bearer_middleware}
use openfsd.Session.Issued.{longest_validity, time_until, get_fsd_jwt, handle_create_new_api_token}
use openfsd.Session.Kinds.{claims_at, parses, middleware_reads}

-- The first byte of a number's text.
print_int-ne-nil : (z : ℤ) → IsInt64 z → print_int z ≢ []
print_int-ne-nil z fits e = absurd (ground (arith, ap atoi? e, atoi?-print_int z fits, atoi?-nil))
  where
    atoi?-nil : atoi? [] ≡ none
    atoi?-nil = unfold atoi? parse_int in refl

-- The claims of an API token.
abbrev pub api_fields : ℤ → CustomFields
api_fields cid = record {
  token_type = codes "access";
  cid = cid;
  first_name = [];
  last_name = [];
  network_rating = administrator;
}

bytes_eq_nil : bytes_eq [] [] ≡ true
unfolding bytes_eq
bytes_eq_nil = refl

module _ (backend : Backend) (laws : Jwt.Laws backend.jwt) (secret : Bytes)
    (stored : get jwt_secret_key backend.settings ≡ value secret) (id : Bytes) (now t : ℕ) where
  module _ (user : User) (known : get_user_by_cid user.cid backend.users ≡ ok user)
      (cid_fits : IsInt64 user.cid) (positive : pos 1 ≤ℤ user.cid) where
    abbrev fsd_token : Bytes
    fsd_token = backend.jwt.sign secret (claims_at id now (fields_of (codes "fsd") user) (5 * 60))

    gives_token :
        (password : Bytes)
        → password ≢ []
        → observer ≤ℤ user.network_rating
        → get_fsd_jwt backend
            (some id)
            now
            (some (record { cid = print_int user.cid; password = password }))
          ≡ success fsd_token
    unfolding get_fsd_jwt signed_token make_jwt_token
    gives_token password given rated =
        rw
          (
            bytes_eq_of_ne (print_int user.cid) [] (print_int-ne-nil user.cid cid_fits),
            bytes_eq_of_ne password [] given,
            atoi?-print_int user.cid cid_fits,
          )
          (ground (arith, known, stored))

    admits :
        (env : Env) (c : Client env)
        → c.cid ≡ user.cid
        → c.client_challenge ≡ []
        → observer ≤ℤ c.network_rating
        → c.network_rating ≤ℤ user.network_rating
        → now ≤ t + 30
        → t < now + 5 * 60
        → most_likely_jwt backend.parse_header fsd_token ≡ true
        → attempt_authentication env backend t fsd_token c
          ≡ granted (record c { max_network_rating = user.network_rating })
    unfolding attempt_authentication
    admits env c same plain low high a b likely =
        let fields = fields_of (codes "fsd") user in
        let parsed = parses backend laws secret stored id now (5 * 60) t fields a b in
        ap (authenticate_with env backend t fsd_token) (software_plain env c plain)
        ∙ granted-Vouched env backend t c c.cid c.network_rating fsd_token user.network_rating refl
            refl low high
            (by_token secret (claims_at id now fields (5 * 60)) likely stored parsed refl same refl)
      where
        software_plain :
            (env : Env) (c : Client env)
            → c.client_challenge ≡ []
            → check_software env backend c ≡ granted c
        software_plain env c plain = unfold check_software in ground (arith, plain, bytes_eq_nil)

  api_token_lem :
      (claims : CustomClaims) (expiry : ℕ) (token : Bytes)
      → handle_create_new_api_token backend claims (some id) now (some expiry) ≡ success token
      → (administrator ≤ℤ claims.fields.network_rating)
        × (now ≤ expiry)
        × (token
            ≡ backend.jwt.sign secret
                (claims_at id now (api_fields claims.fields.cid) (time_until expiry now)))
  unfolding handle_create_new_api_token signed_token make_jwt_token
  api_token_lem claims expiry token h =
      (ground (arith, stored), ground (arith, stored), ground (arith, stored))

  middleware_expired :
      (claims : CustomClaims)
      → claims.expires_at ≤ t
      → jwt_bearer_middleware backend t (codes "Bearer " ++ backend.jwt.sign secret claims)
        ≡ failure 401 (codes "invalid bearer token")
  unfolding jwt_bearer_middleware parse_jwt_token
  middleware_expired claims late =
      rw
        (
          jwt_bearer_middleware,
          cut_prefix?-append (codes "Bearer ") (backend.jwt.sign secret claims),
          stored,
          laws.parse-sign_expired t issuer secret claims late,
        )
        refl

-- Whoever sends a user's CID with any password at all to `getFsdJwt` is given a token, and that token
-- logs a client in to FSD under that CID for five minutes, at each rating from Observer up to the
-- user's. The user has a positive CID, the client sent no challenge, and the token looks like one.
pub fsd_jwt_unchecked :
    (env : Env) (backend : Backend) (laws : Jwt.Laws backend.jwt) (secret id password : Bytes)
    (now t : ℕ) (user : User) (c : Client env)
    → get jwt_secret_key backend.settings ≡ value secret
    → get_user_by_cid user.cid backend.users ≡ ok user
    → IsInt64 user.cid
    → pos 1 ≤ℤ user.cid
    → password ≢ []
    → c.cid ≡ user.cid
    → c.client_challenge ≡ []
    → observer ≤ℤ c.network_rating
    → c.network_rating ≤ℤ user.network_rating
    → now ≤ t + 30
    → t < now + 5 * 60
    → let token =
        backend.jwt.sign secret (claims_at id now (fields_of (codes "fsd") user) (5 * 60)) in
      most_likely_jwt backend.parse_header token ≡ true
      → (get_fsd_jwt backend
            (some id)
            now
            (some (record { cid = print_int user.cid; password = password }))
          ≡ success token)
        × (attempt_authentication env backend t token c
            ≡ granted (record c { max_network_rating = user.network_rating }))
fsd_jwt_unchecked env backend laws secret id password now t user c stored known fits positive given
      same plain low high a b likely =
    (
      gives_token backend laws secret stored id now t user known fits positive password given
          (omega arith),
      admits backend laws secret stored id now t user known fits positive env c same plain low high
          a b likely,
    )

-- An API token is given to administrators only, with an expiry that is not past. The middleware
-- then reads it as an administrator's access token of the caller's CID exactly until that expiry, or
-- until the longest time from now that a time.Duration counts (some 292 years) where that is earlier.
pub api_token_lasts :
    (backend : Backend) (laws : Jwt.Laws backend.jwt) (secret id token : Bytes) (now t expiry : ℕ)
    (claims : CustomClaims)
    → get jwt_secret_key backend.settings ≡ value secret
    → handle_create_new_api_token backend claims (some id) now (some expiry) ≡ success token
    → now ≤ t + 30
    → (administrator ≤ℤ claims.fields.network_rating)
      × (now ≤ expiry)
      × (jwt_bearer_middleware backend t (codes "Bearer " ++ token) ≡ (
          if ltb t (min expiry (now + longest_validity))
          then success (claims_at id now (api_fields claims.fields.cid) (time_until expiry now))
          else failure 401 (codes "invalid bearer token")))
unfolding bytes_eq
api_token_lasts backend laws secret id token now t expiry claims stored h after =
    let (admin, ahead, same) =
      api_token_lem backend laws secret stored id now t claims expiry token h in
    let made = claims_at id now (api_fields claims.fields.cid) (time_until expiry now) in
    let until = min expiry (now + longest_validity) in
    let read = ap (λ s. jwt_bearer_middleware backend t (codes "Bearer " ++ s)) same in
    (
      admin,
      ahead,
      elim (Bool-cases (ltb t until)) [
        | inl in_time ↦ rw in_time (
            read
            ∙ middleware_reads backend laws secret stored id now (time_until expiry now) t
                (api_fields claims.fields.cid) after (omega (arith, ltb→lt t until in_time)))
        | inr late ↦
            rw late
              (read ∙ middleware_expired backend laws secret stored id now t made (ground arith))
      ],
    )
