-- ===== src/Session/Tests.antt =====
-- web/auth.go, web/api_tokens.go, web/fsdconn.go: tokens at concrete inputs.
use openfsd.Prelude.{
  ◌+◌, min, ◌*◌, ◌≤◌, ◌≡◌, refl, true, false, ◌++◌, none, some, arith, ltb, if◌then◌else◌,
}
use openfsd.Prelude.Bytes.{Bytes, codes, bytes_eq}
use openfsd.Prelude.Int.{pos, ◌≤ℤ◌, ltb_ℤ}
use openfsd.Prelude.Decimal.{print_int}
use openfsd.Callsign.Facility.{supervisor, administrator}
use openfsd.Packet.Code
use openfsd.Packet.Fields.{count_byte, cut_at}
use openfsd.Web.Base64.{sextets, sextet, join_sextets, cut_pad}
use openfsd.Db.Users.{User, ok, get_user_by_cid}
use openfsd.Db.Config.{get, select_value}
use openfsd.Fsd.Client.{Client}
use openfsd.Fsd.Jwt.{CustomFields, CustomClaims, most_likely_jwt, std_decode, strip_lines}
use openfsd.Fsd.PostOffice.{find}
use openfsd.Fsd.Login.Authenticate.{
  granted, deny, invalid_logon_msg, check_subject, attempt_authentication, authenticate_token,
}
use openfsd.Fsd.Tests.{client, both, pilot_name}
use openfsd.Fsd.Tests.ListTree.{flat}
use openfsd.Fsd.Tests.Tokens.{plain_jwt, plain_laws, encode, int}
use openfsd.Fsd.Tests.Logins.{backend, user}
use openfsd.Session.{
  failure, success, LoginBody, Tokens, fields_of, renewed, signed_token, get_access_refresh_tokens,
  refresh_access_token, jwt_bearer_middleware,
}
use openfsd.Session.Issued.{longest_validity, get_fsd_jwt, handle_create_new_api_token}
use openfsd.Session.Kinds.{claims_at, token_kinds}
use openfsd.Session.Lasting.{refresh_validity, login_lasts}
use openfsd.Session.Given.{api_fields, fsd_jwt_unchecked, api_token_lasts}
use openfsd.Session.Kick.{kicked, handle_kick_active_connection, kick_lem}

abbrev secret : Bytes
secret = codes "s"

abbrev pilot : Client flat
pilot = client pilot_name false 10

abbrev access_fields : CustomFields
access_fields = fields_of (codes "access") user

token_kinds_example :
    let claims = claims_at (codes "i") 100 access_fields 900 in
    let token = plain_jwt.sign secret claims in
    (signed_token backend secret (some (codes "i")) 100 access_fields 900 ≡ some token)
    × (jwt_bearer_middleware backend 200 (codes "Bearer " ++ token) ≡ (
        if bytes_eq access_fields.token_type (codes "access")
        then success claims
        else failure 401 (codes "invalid token type")))
    × (refresh_access_token backend none 200 (some token) ≡ (
        if bytes_eq access_fields.token_type (codes "refresh")
        then renewed backend none 200 secret access_fields.cid
        else failure 401 (codes "bad token")))
    × (authenticate_token flat backend 200 token pilot ≡ (
        if bytes_eq access_fields.token_type (codes "fsd")
        then check_subject flat claims pilot
        else deny flat Code.invalid_logon invalid_logon_msg))
unfolding get select_value
token_kinds_example =
    token_kinds backend plain_laws secret refl flat pilot (codes "i") none 100 900 200 access_fields
      (omega arith) (omega arith)

abbrev login : LoginBody
login = record { cid = pos 7; password = codes "pw"; remember_me = true }

abbrev tokens : Tokens
tokens = record {
  access_token = plain_jwt.sign secret (claims_at (codes "i") 100 access_fields (15 * 60));
  refresh_token =
      plain_jwt.sign secret
        (claims_at (codes "j") 100 (fields_of (codes "refresh") user) (refresh_validity true));
}

login_given :
    get_access_refresh_tokens backend (some (codes "i")) (some (codes "j")) 100 (some login)
    ≡ success tokens
unfolding get_access_refresh_tokens get get_user_by_cid select_value bytes_eq
login_given = refl

login_lasts_example :
    (user : User) × (renewed_token : Bytes) × (get_user_by_cid (pos 7) backend.users ≡ ok user)
    × (bytes_eq (codes "pw") user.password ≡ true)
    × (jwt_bearer_middleware backend 200 (codes "Bearer " ++ tokens.access_token)
        ≡ success (claims_at (codes "i") 100 (fields_of (codes "access") user) (15 * 60)))
    × (jwt_bearer_middleware backend 5000 (codes "Bearer " ++ tokens.refresh_token)
        ≡ failure 401 (codes "invalid token type"))
    × (refresh_access_token backend (some (codes "k")) 5000 (some tokens.refresh_token)
        ≡ success renewed_token)
    × (jwt_bearer_middleware backend 5000 (codes "Bearer " ++ renewed_token)
        ≡ success (claims_at (codes "k") 5000 (fields_of (codes "access") user) (15 * 60)))
login_lasts_example =
    login_lasts backend plain_laws (codes "i") (codes "j") (codes "k") 100 200 5000 login tokens
      login_given (omega arith) (omega arith) (omega arith) (omega arith)

abbrev fsd_token : Bytes
fsd_token =
    plain_jwt.sign secret (claims_at (codes "i") 100 (fields_of (codes "fsd") user) (5 * 60))

looks_like_one : most_likely_jwt backend.parse_header fsd_token ≡ true
unfolding most_likely_jwt encode int count_byte cut_at std_decode strip_lines sextets sextet
    join_sextets cut_pad bytes_eq
looks_like_one = refl

-- The password is wrong.
fsd_jwt_unchecked_example :
    (get_fsd_jwt backend
        (some (codes "i"))
        100
        (some (record { cid = print_int (pos 7); password = codes "wrong" }))
      ≡ success fsd_token)
    × (attempt_authentication flat backend 150 fsd_token pilot
        ≡ granted (record pilot { max_network_rating = pos 3 }))
unfolding get get_user_by_cid select_value
fsd_jwt_unchecked_example =
    fsd_jwt_unchecked flat backend plain_laws secret (codes "i") (codes "wrong") 100 150 user pilot
      refl refl refl (omega arith) (λ e. absurd (cc)) refl refl (omega arith) (omega arith)
      (omega arith) (omega arith) looks_like_one

abbrev admin_claims : CustomClaims
admin_claims = claims_at (codes "a") 0 (api_fields (pos 9)) 1000

abbrev api_token : Bytes
api_token = plain_jwt.sign secret (claims_at (codes "i") 100 (api_fields (pos 9)) 400)

api_token_given :
    handle_create_new_api_token backend admin_claims (some (codes "i")) 100 (some 500)
    ≡ success api_token
unfolding handle_create_new_api_token get select_value
api_token_given = refl

api_token_lasts_example :
    (administrator ≤ℤ administrator)
    × (100 ≤ 500)
    × (jwt_bearer_middleware backend 600 (codes "Bearer " ++ api_token) ≡ (
        if ltb 600 (min 500 (100 + longest_validity))
        then success (claims_at (codes "i") 100 (api_fields (pos 9)) 400)
        else failure 401 (codes "invalid bearer token")))
unfolding get select_value
api_token_lasts_example =
    api_token_lasts backend plain_laws secret (codes "i") api_token 100 600 500 admin_claims refl
      api_token_given (omega arith)

kick_lem_example :
    handle_kick_active_connection flat backend admin_claims
      (some (codes "i"))
      100
      (some pilot_name)
      both
    ≡ (if ltb_ℤ administrator supervisor
        then (both, failure 403 (codes "forbidden"))
        else kicked flat both (find flat pilot_name both))
unfolding get select_value
kick_lem_example =
    kick_lem flat backend plain_laws secret (codes "i") refl 100 admin_claims pilot_name both
      (λ e. absurd (cc))
