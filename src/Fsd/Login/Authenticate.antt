-- ===== src/Fsd/Login/Authenticate.antt =====
-- fsd/conn.go: attemptAuthentication.
use openfsd.Prelude.{not, String, List, [], Option, none, some, ℕ, if◌then◌else◌}
use openfsd.Prelude.Bytes.{Bytes, codes, bytes_eq}
use openfsd.Prelude.Int.{ℤ, ltb_ℤ, eqb_ℤ}
use openfsd.Callsign.Facility.{observer}
use openfsd.Packet.Code
use openfsd.Db.Users.{User, Bcrypt, ok, err, get_user_by_cid}
use openfsd.Db.Config.{Settings, value, get, jwt_secret_key}
use openfsd.Fsd.Env.{Env}
use openfsd.Fsd.Client.{Client}
use openfsd.Fsd.Auth.{initialize}
use openfsd.Fsd.Jwt
use openfsd.Fsd.Jwt.{CustomClaims, parse_jwt_token, most_likely_jwt}

-- The error that was sent, none where nothing was sent, or the client as it is now.
pub data Authentication (env : Env) : Type 0 where
  denied : Option (ℕ × Bytes) → Authentication env
  granted : Client env → Authentication env

-- What the server reads of its databases, and the functions that are not part of the repository.
pub record Backend : Type 0 where
  pub settings : Settings
  pub users : List User
  pub bcrypt : Bcrypt
  pub jwt : Jwt.Library
  pub parse_header : Bytes → Option (Bytes × Bytes)

abbrev pub invalid_logon_msg : String
invalid_logon_msg = "Invalid CID/password"

module _ (env : Env) where
  abbrev pub deny : ℕ → String → Authentication env
  deny code message = denied (some (code, codes message))

  -- The tests on the rating that was asked for, against the greatest one.
  unfoldable pub check_rating : ℤ → Client env → Authentication env
  check_rating max client =
      if ltb_ℤ max client.network_rating
      then deny Code.requested_level_too_high "Requested level too high"
      else if ltb_ℤ client.network_rating observer
      then deny Code.certificate_suspended "Certificate inactive or suspended"
      else granted (record client { max_network_rating = max })

  -- The CID and the rating of a token's claims.
  abbrev pub check_subject : CustomClaims → Client env → Authentication env
  check_subject claims client =
      if not (eqb_ℤ client.cid claims.fields.cid)
      then deny Code.requested_level_too_high invalid_logon_msg
      else check_rating claims.fields.network_rating client

  unfoldable pub check_claims : CustomClaims → Client env → Authentication env
  unfolding check_rating
  check_claims claims client =
      if not (bytes_eq claims.fields.token_type (codes "fsd"))
      then deny Code.invalid_logon invalid_logon_msg
      else check_subject claims client

  module _ (backend : Backend) where
    unfoldable pub authenticate_token : ℕ → Bytes → Client env → Authentication env
    unfolding check_claims
    authenticate_token now token client = elim (get jwt_secret_key backend.settings) [
      | value secret ↦ elim (parse_jwt_token backend.jwt now token secret) [
        | none ↦ deny Code.invalid_logon invalid_logon_msg
        | some claims ↦ check_claims claims client
      ]
      | _ ↦ denied none
    ]

    unfoldable pub authenticate_password : Bytes → Client env → Authentication env
    unfolding check_rating
    authenticate_password password client = elim (get_user_by_cid client.cid backend.users) [
      | err e ↦ deny Code.invalid_logon invalid_logon_msg
      | ok user ↦
          if not (backend.bcrypt.verify password user.password)
          then deny Code.invalid_logon invalid_logon_msg
          else check_rating user.network_rating client
    ]

    -- The test of the client's software, where the client sent a challenge.
    unfoldable pub check_software : Client env → Authentication env
    check_software client =
        if bytes_eq client.client_challenge []
        then granted client
        else elim (initialize env.md5 client.client_id client.client_challenge) [
          | none ↦ deny Code.unauthorized_software "Client incompatible with auth challenges"
          | some state ↦ granted (record client { auth_state = state })
        ]

    -- The rest behind the test of the software.
    abbrev pub authenticate_with : ℕ → Bytes → Authentication env → Authentication env
    authenticate_with now token (denied e) = denied e
    authenticate_with now token (granted client) =
        if most_likely_jwt backend.parse_header token
        then authenticate_token now token client
        else authenticate_password token client

    unfoldable pub attempt_authentication : ℕ → Bytes → Client env → Authentication env
    unfolding authenticate_token authenticate_password check_software
    attempt_authentication now token client = authenticate_with now token (check_software client)
