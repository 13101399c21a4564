-- ===== src/Session/Issued.antt =====
-- web/auth.go and web/api_tokens.go: tokens for pilot clients and for other programs.
use openfsd.Prelude.{ℕ, ◌/◌, ◌^◌, min, ◌-◌, ◌*◌, ◌||◌, [], Option, none, some, ltb, if◌then◌else◌}
use openfsd.Prelude.Bytes.{Bytes, codes, bytes_eq}
use openfsd.Prelude.Int.{ℤ, pos, ltb_ℤ, leb_ℤ}
use openfsd.Callsign.Facility.{suspended, administrator}
use openfsd.Db.Users.{User, no_rows, ok, err, get_user_by_cid}
use openfsd.Db.Config.{value, get, jwt_secret_key}
use openfsd.Fsd.Jwt.{CustomClaims}
use openfsd.Fsd.Login.Authenticate.{Backend}
use openfsd.Fsd.Login.Read.{atoi?}
use openfsd.Session.{Reply, failure, bad_body, internal, or_internal, fields_of, signed_token}

-- `ExpiryDateTime.Sub(now)`: a time.Duration counts nanoseconds in 64 bits, with a sign, and a
-- longer time is cut to the greatest one.
abbrev pub longest_validity : ℕ
longest_validity = (2 ^ 63 - 1) / 1000000000

abbrev pub time_until : ℕ → ℕ → ℕ
time_until expiry now = min (expiry - now) longest_validity

module _ (backend : Backend) where
  -- The two texts of a request for an FSD token.
  pub record FsdBody : Type 0 where
    pub cid : Bytes
    pub password : Bytes

  abbrev pub fsd_token_for : Option Bytes → ℕ → User → Reply Bytes
  fsd_token_for id now user =
      if leb_ℤ user.network_rating suspended
      then failure 403 (codes "Certificate suspended or inactive")
      else elim id [
        | none ↦ failure 500 (codes "Internal server error")
        | some i ↦ elim (get jwt_secret_key backend.settings) [
          | value secret ↦
              or_internal
                (signed_token backend secret (some i) now (fields_of (codes "fsd") user) (5 * 60))
          | _ ↦ internal
        ]
      ]

  abbrev pub fsd_token_of : Option Bytes → ℕ → ℤ → Reply Bytes
  fsd_token_of id now cid = elim (get_user_by_cid cid backend.users) [
    | err no_rows ↦ failure 401 (codes "Invalid CID and/or password")
    | err _ ↦ failure 500 (codes "Internal server error")
    | ok user ↦ fsd_token_for id now user
  ]

  -- `getFsdJwt`, which never looks at the password that its binding asks for. A body that the binding
  -- refuses ends the handler with nothing written, which gin sends as an empty 200: here that is 200
  -- with an empty text.
  unfoldable pub get_fsd_jwt : Option Bytes → ℕ → Option FsdBody → Reply Bytes
  unfolding signed_token
  get_fsd_jwt id now none = failure 200 []
  get_fsd_jwt id now (some body) =
      if bytes_eq body.cid [] || bytes_eq body.password []
      then failure 200 []
      else elim (atoi? body.cid) [
        | none ↦ failure 400 (codes "Invalid CID")
        | some cid ↦
            if ltb_ℤ cid (pos 1) then failure 400 (codes "Invalid CID") else fsd_token_of id now cid
      ]

  -- The body is the time of expiry.
  abbrev pub api_token_for : Option Bytes → ℕ → ℤ → ℕ → Reply Bytes
  api_token_for id now cid expiry =
      if ltb expiry now
      then failure 400 (codes "expiry_date_time cannot be in the past")
      else elim (get jwt_secret_key backend.settings) [
        | value secret ↦ or_internal (
            signed_token backend secret id now
              (record {
                token_type = codes "access";
                cid = cid;
                first_name = [];
                last_name = [];
                network_rating = administrator;
              })
              (time_until expiry now))
        | _ ↦ internal
      ]

  unfoldable pub handle_create_new_api_token :
      CustomClaims → Option Bytes → ℕ → Option ℕ → Reply Bytes
  unfolding signed_token
  handle_create_new_api_token claims id now body =
      if ltb_ℤ claims.fields.network_rating administrator
      then failure 403 (codes "forbidden")
      else elim body [
        | none ↦ bad_body
        | some expiry ↦ api_token_for id now claims.fields.cid expiry
      ]
