-- ===== src/Fsd/Jwt.antt =====
-- fsd/jwt.go, and mostLikelyJwt of fsd/util.go: the tokens of the web interface and of FSD clients.
-- Signing and parsing is done by github.com/golang-jwt/jwt. Times are whole seconds.
use openfsd.Prelude.{
  ℕ, ◌+◌, ◌-◌, ◌%◌, ◌≤◌, ◌<◌, ◌≡◌, ◌≢◌, Bool, true, false, ◌||◌, not, [], ◌∷◌, Option, none, some,
  length, ◌==◌, if◌then◌else◌,
}
use openfsd.Prelude.Bytes.{Bytes, codes, bytes_eq}
use openfsd.Prelude.Int.{ℤ}
use openfsd.Packet.Fields.{count_byte, cut_at}
use openfsd.Web.Base64.{sextets, join_sextets, cut_pad}

abbrev pub issuer : Bytes
issuer = codes "openfsd"

pub record CustomFields : Type 0 where
  pub token_type : Bytes
  pub cid : ℤ
  pub first_name : Bytes
  pub last_name : Bytes
  pub network_rating : ℤ

-- `jwt.RegisteredClaims` as far as they are set, with the custom fields.
pub record CustomClaims : Type 0 where
  pub token_issuer : Bytes
  pub expires_at : ℕ
  pub not_before : ℕ
  pub issued_at : ℕ
  pub token_id : Bytes
  pub fields : CustomFields

-- `sign` is SignedString with HS256 under a secret. `parse` is ParseWithClaims for that method, at a
-- time, for an issuer and under a secret; none is an error.
pub record Library : Type 0 where
  pub sign : Bytes → CustomClaims → Bytes
  pub parse : ℕ → Bytes → Bytes → Bytes → Option CustomClaims

-- What the server relies on: a token that was signed under the secret parses as its claims from
-- its first second up to its expiry, if it has the issuer, and from its expiry on as none; no token
-- parses under another secret than the one it was signed under.
pub record Laws (lib : Library) : Type 0 where
  pub parse-sign :
      (now : ℕ) (secret : Bytes) (c : CustomClaims)
      → c.not_before ≤ now
      → now < c.expires_at
      → lib.parse now c.token_issuer (lib.sign secret c) secret ≡ some c
  pub parse-sign_expired :
      (now : ℕ) (wanted secret : Bytes) (c : CustomClaims)
      → c.expires_at ≤ now
      → lib.parse now wanted (lib.sign secret c) secret ≡ none
  pub parse-sign_other :
      (now : ℕ) (wanted secret other : Bytes) (c : CustomClaims)
      → secret ≢ other
      → lib.parse now wanted (lib.sign secret c) other ≡ none
  pub sign-ne-nil : (secret : Bytes) (c : CustomClaims) → lib.sign secret c ≢ []

-- `MakeJwtToken`: the id is that of uuid.NewRandom, none where it fails.
unfoldable pub make_jwt_token : Option Bytes → ℕ → CustomFields → ℕ → Option CustomClaims
make_jwt_token none now custom_fields validity = none
make_jwt_token (some id) now custom_fields validity = some (record {
  token_issuer = issuer;
  expires_at = now + validity;
  not_before = now - 30;
  issued_at = now;
  token_id = id;
  fields = custom_fields;
})

unfoldable pub parse_jwt_token : Library → ℕ → Bytes → Bytes → Option CustomClaims
parse_jwt_token lib now raw secret = lib.parse now issuer raw secret

-- `base64.StdEncoding` reads past line ends, and wants whole groups of four.
unfoldable pub strip_lines : Bytes → Bytes
strip_lines [] = []
strip_lines (c ∷ s) = let rest = strip_lines s in if c == 10 || c == 13 then rest else c ∷ rest

unfoldable pub std_decode : Bytes → Option Bytes
unfolding strip_lines sextets join_sextets cut_pad
std_decode s =
    let t = strip_lines s in
    if not (length t % 4 == 0)
    then none
    else elim (sextets (cut_pad (cut_pad t))) [ none ↦ none | some vs ↦ join_sextets vs ]

-- Whether a header has an algorithm and a type; none is an error.
abbrev pub names_both : Option (Bytes × Bytes) → Bool
names_both none = false
names_both (some (alg, typ)) = if bytes_eq alg [] || bytes_eq typ [] then false else true

-- `parse_header` is json.Unmarshal into the two texts `alg` and `typ` of a header.
unfoldable pub most_likely_jwt : (Bytes → Option (Bytes × Bytes)) → Bytes → Bool
unfolding count_byte std_decode cut_at
most_likely_jwt parse_header token =
    if not (count_byte b'.' token == 2) then false else elim (std_decode (cut_at b'.' token)) [
      | none ↦ false
      | some header ↦ names_both (parse_header header)
    ]
