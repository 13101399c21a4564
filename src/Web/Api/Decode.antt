-- ===== src/Web/Api/Decode.antt =====
-- `decodeJwt` reads the payload of a token as its maker wrote it.
use openfsd.Prelude.{ℕ, ◌<◌, ◌≡◌, ◌≢◌, refl, List, [], ◌∷◌, ◌++◌, map, Option, some, arith, All}
use openfsd.Prelude.Bytes.{Bytes}
use openfsd.Web.Base64.Encode.{url_char, url_encode, split_sextets, atob-url_encode}
use openfsd.Web.Api.{Payload, before_dot, second_part, decode_payload}

-- header.payload.signature
abbrev pub token_of : Bytes → Bytes → Bytes → Bytes
token_of header payload signature = header ++ b'.' ∷ (url_encode payload ++ b'.' ∷ signature)

second_part-append :
    (h rest : Bytes)
    → All (λ c. c ≢ b'.') h
    → second_part (h ++ b'.' ∷ rest) ≡ some (before_dot rest)
unfolding second_part
second_part-append [] rest n = refl
second_part-append (c ∷ h) rest (p, n) = ground (arith, second_part-append h rest n)

before_dot-append : (h rest : Bytes) → All (λ c. c ≢ b'.') h → before_dot (h ++ b'.' ∷ rest) ≡ h
unfolding before_dot
before_dot-append [] rest n = refl
before_dot-append (c ∷ h) rest (p, n) = ground (arith, before_dot-append h rest n)

map-url_char_no_dot : (vs : List ℕ) → All (λ c. c ≢ b'.') (map url_char vs)
map-url_char_no_dot [] = tt
map-url_char_no_dot (v ∷ vs) = (unfold url_char in ground arith, map-url_char_no_dot vs)

url_encode_no_dot : (s : Bytes) → All (λ c. c ≢ b'.') (url_encode s)
unfolding url_encode
url_encode_no_dot s = map-url_char_no_dot (split_sextets s)

-- Of a token whose header holds no dot, and whose payload is the encoding of bytes in the URL
-- alphabet without padding, `decodeJwt` hands these bytes to the JSON reader.
pub decode_payload-token_of :
    (parse_json : Bytes → Option Payload) (header payload signature : Bytes)
    → All (λ c. c ≢ b'.') header
    → All (λ b. b < 256) payload
    → decode_payload parse_json (token_of header payload signature) ≡ parse_json payload
unfolding decode_payload
decode_payload-token_of parse_json header payload signature n h =
    let rest = url_encode payload ++ b'.' ∷ signature in
    ground (
      arith,
      second_part-append header rest n,
      before_dot-append (url_encode payload) signature (url_encode_no_dot payload),
      atob-url_encode payload h,
    )
