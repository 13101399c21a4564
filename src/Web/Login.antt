-- ===== src/Web/Login.antt =====
-- web/static/js/openfsd/login.js: the login form.
use openfsd.Prelude.{ℕ, ◌≡◌, ◌≢◌, refl, Bool, false, [], ◌∷◌, Option, none, some, arith}
use openfsd.Prelude.Bytes.{Bytes}
use openfsd.Prelude.Int.{ℤ}
use openfsd.Prelude.Decimal.{parse_int}
use openfsd.Web.Api.{
  Browser, Payload, returned, settled, given, is_expiring, decode_payload, get_access_token,
  get_access_token_claims,
}

pub record LoginForm : Type 0 where
  pub cid : Bytes
  pub password : Bytes
  pub remember_me : Bool

-- The request's body; a CID that is no number is NaN, here none.
pub record LoginBody : Type 0 where
  pub cid : Option ℤ
  pub password : Bytes
  pub remember_me : Bool

-- The two tokens of a good answer.
pub record Tokens : Type 0 where
  pub access_token : Bytes
  pub refresh_token : Bytes

unfoldable pub login_request : LoginForm → LoginBody
login_request form = record {
  cid = parse_int form.cid;
  password = form.password;
  remember_me = form.remember_me;
}

-- none is a failed request, which only shows an alert.
unfoldable pub on_login_answer : Option Tokens → Browser → Browser
on_login_answer none b = b
on_login_answer (some t) b = record {
  access_token = some t.access_token;
  refresh_token = some t.refresh_token;
  href = "/dashboard";
}

given-some : (t : Bytes) → t ≢ [] → given (some t) ≡ some t
given-some [] n = absurd (n refl)
given-some (c ∷ s) n = refl

-- Behind a login with an access token that is not empty, readable and not about to expire,
-- `getAccessToken` returns that token with no refresh, and the page's claims are those of the
-- token.
pub login_session :
    (parse_json : Bytes → Option Payload) (ms : ℕ) (t : Tokens) (p : Payload) (b : Browser)
    → t.access_token ≢ []
    → decode_payload parse_json t.access_token ≡ some p
    → is_expiring parse_json p ms ≡ false
    → let b' = on_login_answer (some t) b in
      (get_access_token parse_json ms b' ≡ (b', settled (returned t.access_token)))
      × (get_access_token_claims parse_json b' ≡ (b', returned p))
unfolding on_login_answer get_access_token get_access_token_claims
login_session parse_json ms t p b n good fresh =
    let present = given-some t.access_token n in
    (ground (arith, present, good, fresh), ground (arith, present, good))
