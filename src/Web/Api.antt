-- ===== src/Web/Api.antt =====
-- web/static/js/openfsd/api.js: the tokens in the browser's storage, and requests that carry them.
-- A function that awaits an answer is two steps, before and behind the wait, so that what the page
-- does in between can be put between them.
pub mod Decode
pub mod Tokens
use mathlib.Core.Option
use openfsd.Prelude.{
  ℕ, ◌+◌, ◌/◌, Bool, true, false, String, List, [], ◌∷◌, map, Option, none, some, ltb, ◌==◌,
  if◌then◌else◌,
}
use openfsd.Prelude.Bytes.{Bytes}
use openfsd.Web.Base64.{atob, to_standard}

-- localStorage's two keys and window.location.href.
pub record Browser : Type 0 where
  pub access_token : Option Bytes
  pub refresh_token : Option Bytes
  pub href : String

-- The field `exp` of a token's payload, none where the payload has none.
pub record Payload : Type 0 where
  pub exp : Option ℕ

pub data Outcome {ℓ} (A : Type ℓ) : Type ℓ where
  returned : A → Outcome A
  thrown : String → Outcome A

-- `getAccessToken` up to its first wait: `refreshing` has sent the refresh token to the server.
pub data Progress : Type 0 where
  settled : Outcome Bytes → Progress
  refreshing : Bytes → Progress

-- `token.split('.')[1]`; none is undefined.
unfoldable pub before_dot : Bytes → Bytes
before_dot [] = []
before_dot (c ∷ s) = if c == b'.' then [] else c ∷ before_dot s

unfoldable pub second_part : Bytes → Option Bytes
unfolding before_dot
second_part [] = none
second_part (c ∷ s) = if c == b'.' then some (before_dot s) else second_part s

abbrev goto_login : Browser → Browser
goto_login b = record b { href = "/login" }

-- `!token`: null or the empty text.
abbrev pub given : Option Bytes → Option Bytes
given none = none
given (some []) = none
given (some (c ∷ s)) = some (c ∷ s)

-- An exception in a called function ends the caller.
abbrev pub then_progress :
    Browser × Outcome Payload → (Payload → Browser → Browser × Progress) → Browser × Progress
then_progress (b, thrown e) k = (b, settled (thrown e))
then_progress (b, returned p) k = k p b

-- `parse_json` is the browser's reading of bytes as UTF-8 and then as JSON; none is an error of it.
module _ (parse_json : Bytes → Option Payload) where
  -- The body of `decodeJwt` for a token that is given; none is an error of one of the calls.
  unfoldable pub decode_payload : Bytes → Option Payload
  decode_payload token = elim (second_part token) [
    | none ↦ none
    | some part ↦ elim (atob (map to_standard part)) [ none ↦ none | some raw ↦ parse_json raw ]
  ]

  unfoldable pub decode_jwt : Option Bytes → Browser → Browser × Outcome Payload
  decode_jwt token b = elim (given token) [
    | none ↦ (goto_login b, thrown "no token found")
    | some t ↦ elim (decode_payload t) [
      | none ↦ (b, thrown "malformed token")
      | some p ↦ (b, returned p)
    ]
  ]

  -- `exp < (now + 15)`, false where `exp` is undefined; `ms` is Date.now().
  abbrev pub is_expiring : Payload → ℕ → Bool
  is_expiring p ms = elim p.exp [ none ↦ false | some e ↦ ltb e (ms / 1000 + 15) ]

  -- `refreshAccessToken` up to its request.
  unfoldable pub refresh_access_token : ℕ → Browser → Browser × Progress
  unfolding decode_jwt
  refresh_access_token ms b = then_progress (decode_jwt b.refresh_token b) λ p b'.
      if is_expiring p ms
      then (goto_login b', settled (thrown "refresh token expired"))
      else (b', refreshing (Option.get_or b.refresh_token []))

  -- `getAccessToken` up to its wait.
  unfoldable pub get_access_token : ℕ → Browser → Browser × Progress
  unfolding decode_jwt refresh_access_token
  get_access_token ms b = elim (given b.access_token) [
    | none ↦ (goto_login b, settled (thrown "No access token found"))
    | some t ↦
        then_progress (decode_jwt (some t) b) λ p b'.
          if is_expiring p ms then refresh_access_token ms b' else (b', settled (returned t))
  ]

  unfoldable pub get_access_token_claims : Browser → Browser × Outcome Payload
  unfolding decode_jwt
  get_access_token_claims b = decode_jwt b.access_token b

-- Behind the wait: the answer is the new access token, or none where the request failed.
unfoldable pub on_refresh_answer : Option Bytes → Browser → Browser × Outcome Bytes
on_refresh_answer none b = (goto_login b, thrown "failed to refresh access token")
on_refresh_answer (some t) b = (record b { access_token = some t }, returned t)

unfoldable pub logout : Browser → Browser
logout b = record { access_token = none; refresh_token = none; href = "/login" }

-- An API request as it goes out; `bearer` is its Authorization header.
pub record Request : Type 0 where
  pub method : String
  pub url : String
  pub bearer : Option Bytes
  pub body : Bytes

-- The promise of `doAPIRequest`: its request is out, it waits for a refresh, or it will never settle,
-- since an exception in the async function handed to `new Promise` rejects nothing.
pub data Promise : Type 0 where
  sent : Request → Promise
  waiting : Bytes → Promise
  never : Promise

abbrev pub send_with : String → String → Bytes → Browser × Outcome Bytes → Browser × Promise
send_with method url body (b, returned t) =
    (b, sent (record { method = method; url = url; bearer = some t; body = body }))
send_with method url body (b, thrown e) = (b, never)

abbrev pub send_or_wait : String → String → Bytes → Browser × Progress → Browser × Promise
send_or_wait method url body (b, settled r) = send_with method url body (b, r)
send_or_wait method url body (b, refreshing t) = (b, waiting t)

module _ (parse_json : Bytes → Option Payload) where
  unfoldable pub do_api_request : ℕ → String → String → Bool → Bytes → Browser → Browser × Promise
  do_api_request ms method url true body b =
      send_or_wait method url body (get_access_token parse_json ms b)
  do_api_request ms method url false body b =
      (b, sent (record { method = method; url = url; bearer = none; body = body }))

  unfoldable pub do_api_request_with_auth :
      ℕ → String → String → Bytes → Browser → Browser × Promise
  unfolding do_api_request
  do_api_request_with_auth ms method url body b = do_api_request ms method url true body b

  unfoldable pub do_api_request_no_auth : ℕ → String → String → Bytes → Browser → Browser × Promise
  unfolding do_api_request
  do_api_request_no_auth ms method url body b = do_api_request ms method url false body b

-- The rest of `doAPIRequest` behind the wait for a refresh.
unfoldable pub resume_api_request :
    String → String → Bytes → Option Bytes → Browser → Browser × Promise
unfolding on_refresh_answer
resume_api_request method url body answer b = send_with method url body (on_refresh_answer answer b)
