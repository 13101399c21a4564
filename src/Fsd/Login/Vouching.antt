-- ===== src/Fsd/Login/Vouching.antt =====
-- fsd/conn.go: who vouches for the CID of a connection, and up to which rating.
use openfsd.Prelude.{
  ℕ, ◌≡◌, ◌≢◌, ◌⊎◌, inl, inr, refl, true, false, [], none, some, arith, Bool-cases, Option-cases,
}
use openfsd.Prelude.Bytes.{Bytes, codes, bytes_eq, bytes_eq_iff}
use openfsd.Prelude.Int.{ℤ, ◌≤ℤ◌, eqb_ℤ_iff}
use openfsd.Callsign.Facility.{observer}
use openfsd.Db.Users.{User, Result, ok, err, get_user_by_cid}
use openfsd.Db.Config.{Got, value, key_not_found, failed, get, jwt_secret_key}
use openfsd.Fsd.Env.{Env}
use openfsd.Fsd.Client.{Client}
use openfsd.Fsd.Auth.{auth_key, initialize}
use openfsd.Fsd.Jwt.{CustomClaims, parse_jwt_token, most_likely_jwt}
use openfsd.Fsd.PostOffice.{box_of}
use openfsd.Fsd.Login.Authenticate.{
  granted, Backend, check_rating, check_claims, authenticate_token, authenticate_password,
  check_software, authenticate_with,
}

-- Who vouches for the CID up to the rating: the row of the database whose hash fits the token as a
-- password, or an FSD token for that CID.
pub data Vouched (backend : Backend) (now : ℕ) (cid : ℤ) (token : Bytes) (max : ℤ) : Type 0 where
  by_password :
      (user : User)
      → most_likely_jwt backend.parse_header token ≡ false
      → get_user_by_cid cid backend.users ≡ ok user
      → backend.bcrypt.verify token user.password ≡ true
      → user.network_rating ≡ max
      → Vouched backend now cid token max
  by_token :
      (secret : Bytes) (claims : CustomClaims)
      → most_likely_jwt backend.parse_header token ≡ true
      → get jwt_secret_key backend.settings ≡ value secret
      → parse_jwt_token backend.jwt now token secret ≡ some claims
      → claims.fields.token_type ≡ codes "fsd"
      → cid ≡ claims.fields.cid
      → claims.fields.network_rating ≡ max
      → Vouched backend now cid token max

module _ (env : Env) where
  check_rating-granted :
      (max : ℤ) (c c' : Client env)
      → check_rating env max c ≡ granted c'
      → (observer ≤ℤ c.network_rating) × (c.network_rating ≤ℤ max)
  unfolding check_rating
  check_rating-granted max c c' h = ground arith

  pub check_rating_grants :
      (max : ℤ) (c : Client env)
      → observer ≤ℤ c.network_rating
      → c.network_rating ≤ℤ max
      → check_rating env max c ≡ granted (record c { max_network_rating = max })
  unfolding check_rating
  check_rating_grants max c h k = ground arith

  module _ (backend : Backend) where
    -- The client as it is granted: only two fields change.
    pub record Granted (now : ℕ) (token : Bytes) (c c' : Client env) : Type 0 where
      pub same_callsign : c'.callsign ≡ c.callsign
      pub same_box : box_of env c' ≡ box_of env c
      pub vouched : Vouched backend now c.cid token c'.max_network_rating
      pub at_least : observer ≤ℤ c.network_rating
      pub at_most : c.network_rating ≤ℤ c'.max_network_rating

    granted_by_password :
        (now : ℕ) (token : Bytes) (c c' : Client env) (r : Result User)
        → get_user_by_cid c.cid backend.users ≡ r
        → most_likely_jwt backend.parse_header token ≡ false
        → authenticate_password env backend token c ≡ granted c'
        → Granted now token c c'
    unfolding authenticate_password check_rating
    granted_by_password now token c c' (err e) q n h = absurd (ground (arith, q))
    granted_by_password now token c c' (ok user) q n h =
        let verified : backend.bcrypt.verify token user.password ≡ true = ground (arith, q) in
        let max : user.network_rating ≡ c'.max_network_rating = ground (arith, q) in
        record {
          same_callsign = ground (arith, q);
          same_box = ground (arith, q);
          vouched = by_password user n q verified max;
          at_least = ground (arith, q);
          at_most = ground (arith, q);
        }

    granted_by_claims :
        (now : ℕ) (token secret : Bytes) (claims : CustomClaims) (c c' : Client env)
        → get jwt_secret_key backend.settings ≡ value secret
        → parse_jwt_token backend.jwt now token secret ≡ some claims
        → most_likely_jwt backend.parse_header token ≡ true
        → check_claims env claims c ≡ granted c'
        → Granted now token c c'
    unfolding check_claims check_rating
    granted_by_claims now token secret claims c c' got parsed y h =
        let kind : claims.fields.token_type ≡ codes "fsd" =
          ground (arith, bytes_eq_iff claims.fields.token_type (codes "fsd")) in
        let same : c.cid ≡ claims.fields.cid = ground (arith, eqb_ℤ_iff c.cid claims.fields.cid) in
        record {
          same_callsign = ground arith;
          same_box = ground arith;
          vouched = by_token secret claims y got parsed kind same (ground arith);
          at_least = ground arith;
          at_most = ground arith;
        }

    granted_by_token :
        (now : ℕ) (token : Bytes) (c c' : Client env) (g : Got)
        → get jwt_secret_key backend.settings ≡ g
        → most_likely_jwt backend.parse_header token ≡ true
        → authenticate_token env backend now token c ≡ granted c'
        → Granted now token c c'
    unfolding authenticate_token
    granted_by_token now token c c' key_not_found q y h = absurd (ground (arith, q))
    granted_by_token now token c c' failed q y h = absurd (ground (arith, q))
    granted_by_token now token c c' (value secret) q y h =
        elim (Option-cases (parse_jwt_token backend.jwt now token secret)) [
          | inl none_there ↦ absurd (ground (arith, q, none_there))
          | inr (claims, parsed) ↦
              granted_by_claims now token secret claims c c' q parsed y (ground (arith, q, parsed))
        ]

    -- The client's software has a key, where it sent a challenge.
    abbrev pub IsKnownSoftware : Bytes → ℕ → Type 0
    IsKnownSoftware challenge client_id = (challenge ≡ []) ⊎ (auth_key client_id ≢ none)

    pub software_known :
        (c c' : Client env)
        → check_software env backend c ≡ granted c'
        → IsKnownSoftware c.client_challenge c.client_id
    unfolding check_software initialize
    software_known c c' h = elim (Bool-cases (bytes_eq c.client_challenge [])) [
      | inl empty ↦ inl ((bytes_eq_iff c.client_challenge []).0 empty)
      | inr sent ↦ inr (λ e. absurd (ground (arith, sent, e)))
    ]

    pub software_same :
        (c c' : Client env)
        → check_software env backend c ≡ granted c'
        → (c'.callsign ≡ c.callsign)
          × (c'.cid ≡ c.cid)
          × (c'.network_rating ≡ c.network_rating)
          × (box_of env c' ≡ box_of env c)
    unfolding check_software
    software_same c c' h = elim (Bool-cases (bytes_eq c.client_challenge [])) [
      | inl empty ↦ (
        ground (arith, empty),
        ground (arith, empty),
        ground (arith, empty),
        ground (arith, empty),
      )
      | inr sent ↦ elim (Option-cases (initialize env.md5 c.client_id c.client_challenge)) [
        | inl no_key ↦ absurd (ground (arith, sent, no_key))
        | inr (s, key) ↦ (
          ground (arith, sent, key),
          ground (arith, sent, key),
          ground (arith, sent, key),
          ground (arith, sent, key),
        )
      ]
    ]

    pub granted_by_either :
        (now : ℕ) (token : Bytes) (c c' : Client env)
        → authenticate_with env backend now token (granted c) ≡ granted c'
        → Granted now token c c'
    granted_by_either now token c c' h =
        elim (Bool-cases (most_likely_jwt backend.parse_header token)) [
          | inl y ↦
              granted_by_token now token c c' (get jwt_secret_key backend.settings) refl y
                (ground (arith, y))
          | inr n ↦
              granted_by_password now token c c' (get_user_by_cid c.cid backend.users) refl n
                (ground (arith, n))
        ]
