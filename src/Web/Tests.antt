-- ===== src/Web/Tests.antt =====
-- web/static/js/openfsd: runs at concrete inputs.
pub mod Pages
mod NewTokens
use openfsd.Prelude.{
  ℕ, ◌≤◌, ◌<◌, ◌≡◌, ◌≢◌, ◌↔◌, ◌⊎◌, refl, Bool, String, List, [], ◌∷◌, ◌++◌, map, Option, none, some,
  arith, length, All,
}
use openfsd.Prelude.Bytes.{Bytes, codes}
use openfsd.Prelude.Int.{pos}
use openfsd.Web.Base64.{atob, to_standard}
use openfsd.Web.Base64.Encode.{url_encode, atob-url_encode}
use openfsd.Web.Api.{
  Browser, Payload, returned, thrown, settled, decode_payload, get_access_token,
  get_access_token_claims, on_refresh_answer, logout, Request, Promise, never, resume_api_request,
}
use openfsd.Web.Api.Decode.{token_of, decode_payload-token_of}
use openfsd.Web.Api.Tokens.{get_access_token_of_answer, resume_api_request_lem, logout_undone}
use openfsd.Web.Login.{Tokens, on_login_answer, login_session}

abbrev header : Bytes
header = codes "head"

abbrev payload : Bytes
payload = codes "{}?>~"

abbrev token : Bytes
token = token_of header payload (codes "sign")

-- A JSON reader that finds an expiry time in the payload of the test, and nothing in others.
abbrev read_payload : Bytes → Option Payload
read_payload (c ∷ s) = some (record { exp = some 5000 })
read_payload [] = none

abbrev logged_in : Browser
logged_in = record { access_token = some token; refresh_token = some token; href = "/dashboard" }

small : All (λ b. b < 256) payload
small = omega arith

decode_payload-token_of_example :
    decode_payload read_payload token ≡ some (record { exp = some 5000 })
decode_payload-token_of_example =
    decode_payload-token_of read_payload header payload (codes "sign") (omega arith) small

token_readable : decode_payload read_payload token ≡ some (record { exp = some 5000 })
token_readable =
    decode_payload-token_of read_payload header payload (codes "sign") (omega arith) small

abbrev get_users : Request
get_users = record { method = "GET"; url = "/api/v1/user/load"; bearer = some token; body = [] }

logout_undone_example :
    let after = (on_refresh_answer (some token) (logout logged_in)).0 in
    (get_access_token read_payload 1000000 (logout logged_in)
      ≡ (logout logged_in, settled (thrown "No access token found")))
    × (get_access_token read_payload 1000000 after ≡ (after, settled (returned token)))
    × (after.refresh_token ≡ none)
logout_undone_example =
    logout_undone read_payload 1000000 logged_in token (record { exp = some 5000 })
      (λ e. ground (arith, e)) token_readable refl

abbrev tokens : Tokens
tokens = record { access_token = token; refresh_token = token }
