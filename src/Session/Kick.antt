-- ===== src/Session/Kick.antt =====
-- web/fsdconn.go, and the request of web/data.go to the FSD server's service: kicks.
use mathlib.Core.Option
use openfsd.Prelude.{
  ℕ, ◌*◌, ◌≡◌, ◌≢◌, refl, ap, ◌∙◌, true, ◌++◌, [], Option, none, some, arith, ◌==◌, inl, inr,
  Bool-cases, Option-cases, if◌then◌else◌,
}
use openfsd.Prelude.Bytes.{Bytes, codes, bytes_eq, bytes_eq_of_ne, cut_prefix?-append}
use openfsd.Prelude.Int.{negsuc, ltb_ℤ}
use openfsd.Callsign.Facility.{supervisor, administrator}
use openfsd.Db.Config.{value, get, jwt_secret_key}
use openfsd.Fsd.Env.{Env}
use openfsd.Fsd.Client.{cancel}
use openfsd.Fsd.Jwt
use openfsd.Fsd.Jwt.{CustomFields, CustomClaims, make_jwt_token, parse_jwt_token}
use openfsd.Fsd.PostOffice.{World, modify, find}
use openfsd.Fsd.Login.Authenticate.{Backend}
use openfsd.Fsd.Service.{auth_middleware, handle_kick_user}
use openfsd.Session.{Reply, failure, success, bad_body, signed_token}
use openfsd.Session.Kinds.{claims_at, parses}

abbrev pub service_fields : CustomFields
service_fields = record {
  token_type = codes "fsd_service";
  cid = negsuc 0;
  first_name = [];
  last_name = [];
  network_rating = administrator;
}

-- The Authorization header of `makeFsdHttpServiceHttpRequest`; none is an error.
unfoldable pub service_header : Backend → Option Bytes → ℕ → Option Bytes
unfolding signed_token
service_header backend id now = elim (get jwt_secret_key backend.settings) [
  | value secret ↦
      Option.map (λ token. codes "Bearer " ++ token)
        (signed_token backend secret id now service_fields (15 * 60))
  | _ ↦ none
]

-- A request that cannot be made, or that gets no answer, ends the handler with nothing written, which
-- gin sends as an empty 200: here that is 200 with an empty text.
abbrev pub kick_reply : ℕ → Reply (Unit {0})
kick_reply status =
    if status == 204
    then success tt
    else if status == 404
    then failure 404 (codes "Callsign not found")
    else failure 500 (codes "internal server error")

module _ (env : Env) (backend : Backend) where
  -- The service's side: the middleware, then the handler.
  abbrev pub serve_kick : ℕ → Bytes → Bytes → World env → World env × ℕ
  serve_kick now header callsign w = elim (auth_middleware backend now header) [
    | some status ↦ (w, status)
    | none ↦ handle_kick_user env true callsign w
  ]

  abbrev pub kick_answered : World env × ℕ → World env × Reply (Unit {0})
  kick_answered (w, status) = (w, kick_reply status)

  -- `handleKickActiveConnection` with the service's answer to its request, sent and served at once. A
  -- body is none where the binding refuses it.
  unfoldable pub handle_kick_active_connection :
      CustomClaims → Option Bytes → ℕ → Option Bytes → World env → World env × Reply (Unit {0})
  unfolding service_header auth_middleware handle_kick_user
  handle_kick_active_connection claims id now body w =
      if ltb_ℤ claims.fields.network_rating supervisor
      then (w, failure 403 (codes "forbidden"))
      else elim body [
        | none ↦ (w, bad_body)
        | some callsign ↦
            if bytes_eq callsign [] then (w, bad_body) else elim (service_header backend id now) [
              | none ↦ (w, failure 200 [])
              | some header ↦ kick_answered (serve_kick now header callsign w)
            ]
      ]

module _ (env : Env) where
  -- What a kick comes to, by who has the callsign.
  abbrev pub kicked : World env → Option ℕ → World env × Reply (Unit {0})
  kicked w none = (w, failure 404 (codes "Callsign not found"))
  kicked w (some c) = (modify env c (cancel env) w, success tt)

module _ (env : Env) (backend : Backend) (laws : Jwt.Laws backend.jwt) (secret id : Bytes)
    (stored : get jwt_secret_key backend.settings ≡ value secret) (now : ℕ) where
  abbrev header : Bytes
  header = codes "Bearer " ++ backend.jwt.sign secret (claims_at id now service_fields (15 * 60))

  makes_header : service_header backend (some id) now ≡ some header
  unfolding service_header signed_token make_jwt_token
  makes_header = rw (service_header, stored) refl

  passes : auth_middleware backend now header ≡ none
  unfolding auth_middleware bytes_eq
  passes =
      rw
        (
          auth_middleware,
          cut_prefix?-append (codes "Bearer ")
              (backend.jwt.sign secret (claims_at id now service_fields (15 * 60))),
          stored,
          parses backend laws secret stored id now (15 * 60) now service_fields (omega arith)
              (omega arith),
        )
        refl

  lets_through :
      (callsign : Bytes) (w : World env)
      → serve_kick env backend now header callsign w ≡ handle_kick_user env true callsign w
  lets_through callsign w =
      ap
        (λ o. elim o as (λ _. World env × ℕ) [
          | some status ↦ (w, status)
          | none ↦ handle_kick_user env true callsign w
        ])
        passes

  served :
      (callsign : Bytes) (w : World env)
      → kick_answered env backend (handle_kick_user env true callsign w)
        ≡ kicked env w (find env callsign w)
  unfolding handle_kick_user
  served callsign w = elim (Option-cases (find env callsign w)) [
    | inl gone ↦ rw (handle_kick_user, gone) refl
    | inr (c, there) ↦ rw (handle_kick_user, there) refl
  ]

  -- A kick is refused below the rating of a supervisor. From there on the service lets the web server's
  -- own token through, and exactly the client that has the callsign is ended; where nobody has it,
  -- nothing changes and the answer is 404. The callsign is not empty, and a secret is stored.
  pub kick_lem :
      (claims : CustomClaims) (callsign : Bytes) (w : World env)
      → callsign ≢ []
      → handle_kick_active_connection env backend claims (some id) now (some callsign) w ≡ (
          if ltb_ℤ claims.fields.network_rating supervisor
          then (w, failure 403 (codes "forbidden"))
          else kicked env w (find env callsign w))
  unfolding handle_kick_active_connection handle_kick_user
  kick_lem claims callsign w given =
      elim (Bool-cases (ltb_ℤ claims.fields.network_rating supervisor)) [
        | inl low ↦ rw low refl
        | inr high ↦
            rw (high, bytes_eq_of_ne callsign [] given, makes_header)
              (ap (kick_answered env backend) (lets_through callsign w) ∙ served callsign w)
      ]
