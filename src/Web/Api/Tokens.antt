-- ===== src/Web/Api/Tokens.antt =====
-- Which tokens requests carry, and what the storage holds behind each step.
use openfsd.Prelude.{
  ℕ, ◌≡◌, ◌≢◌, inl, inr, refl, false, String, [], ◌∷◌, Option, none, some, arith, Option-cases,
}
use openfsd.Prelude.Bytes.{Bytes}
use openfsd.Web.Api.{
  Browser, Payload, returned, thrown, settled, given, is_expiring, decode_payload, decode_jwt,
  refresh_access_token, get_access_token, on_refresh_answer, logout, sent, never,
  resume_api_request,
}

given-given : (o : Option Bytes) (t : Bytes) → given o ≡ some t → given (some t) ≡ some t
given-given none t h = absurd (ground arith)
given-given (some []) t h = absurd (ground arith)
given-given (some (c ∷ s)) t h = ground arith

module _ (parse_json : Bytes → Option Payload) where
  decode_jwt_of_given :
      (o : Option Bytes) (t : Bytes) (b : Browser)
      → given o ≡ some t
      → decode_jwt parse_json o b ≡ (elim (decode_payload parse_json t) [
        | none ↦ (b, thrown "malformed token")
        | some p ↦ (b, returned p)
      ])
  unfolding decode_jwt
  decode_jwt_of_given o t b h = rw (h, decode_jwt)

  refresh-ne-returned :
      (ms : ℕ) (b b' : Browser) (t : Bytes)
      → refresh_access_token parse_json ms b ≢ (b', settled (returned t))
  unfolding refresh_access_token
  refresh-ne-returned ms b b' t h = ground arith

  -- A token that `getAccessToken` returns without a refresh is the stored one, readable and with
  -- more than 15 seconds to run; the storage and the page stay as they are.
  pub get_access_token-returned :
      (ms : ℕ) (b b' : Browser) (t : Bytes)
      → get_access_token parse_json ms b ≡ (b', settled (returned t))
      → (b' ≡ b)
        × (given b.access_token ≡ some t)
        × ((p : Payload) × (decode_payload parse_json t ≡ some p)
            × (is_expiring parse_json p ms ≡ false))
  unfolding get_access_token
  get_access_token-returned ms b b' t h = elim (Option-cases (given b.access_token)) [
    | inl missing ↦ absurd (ground arith)
    | inr (s, found) ↦ elim (Option-cases (decode_payload parse_json s)) [
      | inl bad ↦ absurd (ground (arith, given-given b.access_token s found))
      | inr (p, good) ↦
          let same = given-given b.access_token s found in
          let quiet = refresh-ne-returned ms b b' t in
          (
            ground (arith, same, quiet),
            ground (arith, same, quiet),
            (p, ground (arith, same, quiet), ground (arith, same, quiet)),
          )
    ]
  ]

  -- A refreshed token is the one that the next request finds, with no further refresh.
  pub get_access_token_of_answer :
      (ms : ℕ) (b : Browser) (t : Bytes) (p : Payload)
      → t ≢ []
      → decode_payload parse_json t ≡ some p
      → is_expiring parse_json p ms ≡ false
      → get_access_token parse_json ms (on_refresh_answer (some t) b).0
        ≡ ((on_refresh_answer (some t) b).0, settled (returned t))
  unfolding get_access_token on_refresh_answer
  get_access_token_of_answer ms b [] p n good fresh = absurd (n refl)
  get_access_token_of_answer ms b (c ∷ s) p n good fresh = ground arith

-- A request that waited for a refresh carries the new access token, which is then the stored one;
-- where the refresh failed no request goes out and the page goes to the login page.
pub resume_api_request_lem :
    (method url : String) (body : Bytes) (answer : Option Bytes) (b : Browser)
    → resume_api_request method url body answer b ≡ (elim answer [
      | none ↦ (record b { href = "/login" }, never)
      | some t ↦ (
        record b { access_token = some t },
        sent (record { method = method; url = url; bearer = some t; body = body }),
      )
    ])
unfolding resume_api_request
resume_api_request_lem method url body none b = refl
resume_api_request_lem method url body (some t) b = refl

-- Behind a logout `getAccessToken` throws and sends the page to the login page; but where a refresh was
-- out and its answer comes in with an access token that is readable and not about to expire, it returns
-- this token with no further refresh. The refresh token is gone.
pub logout_undone :
    (parse_json : Bytes → Option Payload) (ms : ℕ) (b : Browser) (t : Bytes) (p : Payload)
    → t ≢ []
    → decode_payload parse_json t ≡ some p
    → is_expiring parse_json p ms ≡ false
    → let after = (on_refresh_answer (some t) (logout b)).0 in
      (get_access_token parse_json ms (logout b)
        ≡ (logout b, settled (thrown "No access token found")))
      × (get_access_token parse_json ms after ≡ (after, settled (returned t)))
      × (after.refresh_token ≡ none)
unfolding get_access_token logout on_refresh_answer
logout_undone parse_json ms b t p n good fresh =
    (refl, get_access_token_of_answer parse_json ms (logout b) t p n good fresh, refl)
