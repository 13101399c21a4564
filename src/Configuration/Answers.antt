-- ===== src/Configuration/Answers.antt =====
-- web/config.go: settings that are written are read, the page can show what it is answered, and a new
-- secret ends every token.
use openfsd.Prelude.{
  ℕ, ltb, ◌≡◌, ◌≢◌, refl, sym, ap, ◌∙◌, inl, inr, Bool, true, false, ◌++◌, String, str_eq, List, [],
  ◌∷◌, Option, none, some, arith, Bool-cases, Option-cases, if◌then◌else◌,
}
use mathlib.Core.Path.{subst}
use openfsd.Prelude.Bytes.{Bytes, codes, bytes_eq_of_ne, cut_prefix?-append}
use openfsd.Prelude.Int.{◌≤ℤ◌, ltb_ℤ}
use openfsd.Callsign.Facility.{administrator}
use openfsd.Db.Config.{
  Settings, Got, value, key_not_found, failed, get, set, jwt_secret_key, generate_jwt_secret_key,
}
use openfsd.Db.Config.Stored.{get-set}
use openfsd.Fsd.Auth.{hex}
use openfsd.Fsd.Jwt
use openfsd.Fsd.Jwt.{CustomClaims, issuer, parse_jwt_token}
use openfsd.Packet.Code
use openfsd.Fsd.Env.{Env}
use openfsd.Fsd.Client.{Client}
use openfsd.Fsd.Login.Authenticate.{Backend, deny, invalid_logon_msg, authenticate_token}
use openfsd.Web.ConfigEditor.{Pair, Label, label_of, lookup, input_of, Form, render, load_config}
use openfsd.Web.Messages.{
  Answer, given, refused, failed as call_failed, complaint, loaded, on_load_answer,
}
use openfsd.Session.{Reply, failure, success, refresh_access_token, jwt_bearer_middleware}
use openfsd.Configuration.{
  config_keys, with_key, read_keys, handle_get_config, is_forbidden, write_pairs, update_reply,
  handle_update_config, handle_reset_secret_key,
}

-- Every pair has one of the keys.
abbrev pub Labelled : List String → Type 0
Labelled [] = Unit
Labelled (k ∷ ks) = ((l : Label) × (label_of k ≡ some l)) × Labelled ks

config_keys-Labelled : Labelled config_keys
unfolding label_of lookup
config_keys-Labelled = ((_, refl), ((_, refl), ((_, refl), ((_, refl), ((_, refl), tt)))))

module _ (unescape : Bytes → Bytes) where
  rendered_with :
      (k : String) (l : Label) (g : Got) (r : Option (List Pair)) (pairs : List Pair)
      → label_of k ≡ some l
      → with_key k g r ≡ some pairs
      → ((ps : List Pair) → r ≡ some ps → (render unescape ps).1 ≡ true)
      → (render unescape pairs).1 ≡ true
  unfolding render input_of
  rendered_with k l (value v) (some rest) pairs found e ih =
      subst (λ ps. (render unescape ps).1 ≡ true) (some_inj e)
        (rw (render, input_of, found) (ih rest refl))
    where
      some_inj :
          some (◌∷◌ (record { key = k; value = v }) rest) ≡ some pairs
          → ◌∷◌ (record { key = k; value = v }) rest ≡ pairs
      some_inj h = cc
  rendered_with k l (value v) none pairs found e ih = absurd (cc)
  rendered_with k l key_not_found r pairs found e ih = ih pairs e
  rendered_with k l failed r pairs found e ih = absurd (cc)

  rendered :
      (keys : List String) (s : Settings) (pairs : List Pair)
      → Labelled keys
      → read_keys keys s ≡ some pairs
      → (render unescape pairs).1 ≡ true
  unfolding read_keys render
  rendered [] s pairs h e = subst (λ ps. (render unescape ps).1 ≡ true) (some_nil e) refl
    where
      some_nil : some [] ≡ some pairs → [] ≡ pairs
      some_nil h = cc
  rendered (k ∷ keys) s pairs ((l, found), h) e =
      rendered_with k l (get k s) (read_keys keys s) pairs found e (λ ps q. rendered keys s ps h q)

-- A reply of the server as `doAPIRequest` hands it to a page: a status from 400 on rejects.
abbrev pub seen {ℓ} : {A : Type ℓ} → Reply A → Answer A
seen (failure status e) = if ltb status 400 then refused e else call_failed (some e)
seen (success a) = given a

-- Whatever the server answers to a request for the configuration, an administrator's or not, with the
-- table readable or not: the page tells of the server's error and leaves its form, or it was answered
-- the table's pairs, comes to the end of its loading, and shows no alert, since each key that the
-- server answers has a label.
pub get_config-on_load_answer :
    (unescape : Bytes → Bytes) (claims : CustomClaims) (s : Settings) (form : Form)
    → on_load_answer unescape (seen (handle_get_config claims s)) form ≡ (
        if ltb_ℤ claims.fields.network_rating administrator
        then (form, some (codes "Error: forbidden"))
        else elim (read_keys config_keys s) [
          | none ↦ (form, some (codes "Error: Error reading key/value from persistent storage"))
          | some pairs ↦ ((load_config unescape pairs form).0, none)
        ])
unfolding handle_get_config load_config on_load_answer complaint
get_config-on_load_answer unescape claims s form = elim (Bool-cases (is_forbidden claims)) [
  | inl no_admin ↦ rw no_admin refl
  | inr admin ↦ elim (Option-cases (read_keys config_keys s)) [
    | inl unread ↦ rw (admin, unread) refl
    | inr (pairs, read) ↦
        rw (admin, read)
          (ap (λ b. loaded ((load_config unescape pairs form).0, b))
            (rendered unescape config_keys s pairs config_keys-Labelled read))
  ]
]

-- The value that a list of pairs gives a key last.
unfoldable pub latest : String → List Pair → Got → Got
latest k [] g = g
latest k (kv ∷ rest) g = latest k rest (if str_eq kv.key k then value kv.value else g)

written :
    (k : String) (pairs : List Pair) (s s' : Settings)
    → write_pairs pairs s ≡ (s', true)
    → get k s' ≡ latest k pairs (get k s)
unfolding write_pairs latest
written k [] s s' h = ap (get k) (sym (ap (λ p. p.0) h))
written k (kv ∷ rest) s s' h = elim (Option-cases (set kv.key kv.value s)) [
  | inl down ↦ absurd (ground (arith, down, h))
  | inr (s'', ok) ↦
      written k rest s'' s' (ground (arith, ok, h))
      ∙ ap (latest k rest) (get-set kv.key k kv.value s s'' ok)
]

-- An update that succeeds was an administrator's, and behind it every key reads as the last value
-- that the body gives it, or as before where the body does not name it. The update refuses no key
-- and no value of a body.
pub update_config-get :
    (claims : CustomClaims) (pairs : List Pair) (s s' : Settings) (k : String)
    → handle_update_config claims (some pairs) s ≡ (s', success tt)
    → (administrator ≤ℤ claims.fields.network_rating) × (get k s' ≡ latest k pairs (get k s))
unfolding handle_update_config
update_config-get claims pairs s s' k h = elim (Bool-cases (is_forbidden claims)) [
  | inl no_admin ↦ absurd (ground (arith, no_admin, h))
  | inr admin ↦ (
    ground (arith, admin),
    written k pairs s s' (all_written (write_pairs pairs s) (ground (arith, admin, h))),
  )
]
  where
    all_written : (p : Settings × Bool) → update_reply p ≡ (s', success tt) → p ≡ (s', true)
    all_written (v, true) e = ap (λ q. (q.0, true)) e
    all_written (v, false) e = absurd (ground (arith, ap (λ q. q.1) e))

stored_key :
    (claims : CustomClaims) (bytes : Bytes) (s s' : Settings)
    → handle_reset_secret_key claims (some bytes) s ≡ (s', success tt)
    → get jwt_secret_key s' ≡ value (hex bytes)
unfolding handle_reset_secret_key generate_jwt_secret_key
stored_key claims bytes s s' h = elim (Bool-cases (is_forbidden claims)) [
  | inl no_admin ↦ absurd (ground (arith, no_admin, ap (λ q. q.1) h))
  | inr admin ↦ elim (Option-cases (set jwt_secret_key (hex bytes) s)) [
    | inl down ↦ absurd (ground (arith, admin, down, ap (λ q. q.1) h))
    | inr (s'', ok) ↦
        let same : s'' ≡ s' = ground (arith, admin, ok, ap (λ q. q.0) h) in
        ap (get jwt_secret_key) (sym same)
        ∙ get-set jwt_secret_key jwt_secret_key (hex bytes) s s'' ok
  ]
]

-- Behind a reset of the secret key by an administrator, to another key than before, every token that
-- was signed under the old one is refused: by the middleware, as a refresh token, and at an FSD
-- login.
pub reset_secret_key-ends :
    (env : Env) (backend : Backend) (laws : Jwt.Laws backend.jwt) (claims c : CustomClaims)
    (secret bytes : Bytes) (s' : Settings) (id : Option Bytes) (t : ℕ) (client : Client env)
    → handle_reset_secret_key claims (some bytes) backend.settings ≡ (s', success tt)
    → secret ≢ hex bytes
    → let after : Backend = record backend { settings = s' } in
      let token = backend.jwt.sign secret c in
      (jwt_bearer_middleware after t (codes "Bearer " ++ token)
        ≡ failure 401 (codes "invalid bearer token"))
      × (refresh_access_token after id t (some token) ≡ failure 401 (codes "bad token"))
      × (authenticate_token env after t token client
          ≡ deny env Code.invalid_logon invalid_logon_msg)
unfolding jwt_bearer_middleware refresh_access_token authenticate_token parse_jwt_token
reset_secret_key-ends env backend laws claims c secret bytes s' id t client h other =
    let stored = stored_key claims bytes backend.settings s' h in
    let refused = laws.parse-sign_other t issuer secret (hex bytes) c other in
    (
      rw
          (
            jwt_bearer_middleware,
            cut_prefix?-append (codes "Bearer ") (backend.jwt.sign secret c),
            stored,
            refused,
          )
          refl,
      rw
          (
            refresh_access_token,
            bytes_eq_of_ne (backend.jwt.sign secret c) [] (laws.sign-ne-nil secret c),
            stored,
            refused,
          )
          refl,
      rw (authenticate_token, stored, refused) refl,
    )
