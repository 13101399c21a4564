-- ===== src/Fsd/Tests/Tokens.antt =====
-- fsd/jwt.go: tokens for tests. A token is its claims written as numbers, with the secret in front:
-- what the server relies on can hold.
use openfsd.Prelude.{
  ℕ, zero, suc, ◌≡◌, refl, ap, ◌∙◌, ◌&&◌, [], ◌∷◌, ◌++◌, Option, none, some, arith, length, take,
  drop, ltb, leb, if◌then◌else◌,
}
use openfsd.Prelude.Bytes.{
  Bytes, codes, bytes_eq, bytes_eq_refl, bytes_eq_of_ne, cut_prefix?, cut_prefix?-append,
}
use openfsd.Prelude.Int.{ℤ, pos, negsuc}
use openfsd.Fsd.Jwt.{CustomClaims, Library, Laws}

-- A text with its length in front.
abbrev text : Bytes → Bytes → Bytes
text s rest = length s ∷ (s ++ rest)

unfoldable pub int : ℤ → Bytes → Bytes
int (pos n) rest = 0 ∷ n ∷ rest
int (negsuc n) rest = 1 ∷ n ∷ rest

abbrev read_text : Bytes → Bytes × Bytes
read_text [] = ([], [])
read_text (n ∷ s) = (take n s, drop n s)

abbrev read_num : Bytes → ℕ × Bytes
read_num [] = (0, [])
read_num (n ∷ s) = (n, s)

abbrev signed : ℕ → ℕ → ℤ
signed zero n = pos n
signed (suc k) n = negsuc n

unfoldable pub read_int : Bytes → ℤ × Bytes
read_int s = let (k, s') = read_num s in let (n, s'') = read_num s' in (signed k n, s'')

take-append : (s rest : Bytes) → take (length s) (s ++ rest) ≡ s
take-append [] rest = refl
take-append (c ∷ s) rest = ap (λ r. c ∷ r) (take-append s rest)

drop-append : (s rest : Bytes) → drop (length s) (s ++ rest) ≡ rest
drop-append [] rest = refl
drop-append (c ∷ s) rest = drop-append s rest

read_int-int : (z : ℤ) (rest : Bytes) → read_int (int z rest) ≡ (z, rest)
unfolding read_int int
read_int-int (pos n) rest = refl
read_int-int (negsuc n) rest = refl

unfoldable pub encode : Bytes → CustomClaims → Bytes
encode secret c = text secret (
    text c.token_issuer (
      c.expires_at
      ∷ c.not_before
      ∷ c.issued_at
      ∷ text c.token_id (
          text c.fields.token_type (
            int c.fields.cid (
              text c.fields.first_name
                (text c.fields.last_name (int c.fields.network_rating [])))))))

unfoldable pub decode : Bytes → Bytes × CustomClaims
decode raw =
    let (secret, a) = read_text raw in
    let (iss, b) = read_text a in
    let (exp, c) = read_num b in
    let (nbf, d) = read_num c in
    let (iat, e) = read_num d in
    let (id, f) = read_text e in
    let (kind, g) = read_text f in
    let (cid, h) = read_int g in
    let (first, i) = read_text h in
    let (last, j) = read_text i in
    let (rating, k) = read_int j in
    (
      secret,
      record {
        token_issuer = iss;
        expires_at = exp;
        not_before = nbf;
        issued_at = iat;
        token_id = id;
        fields = record {
          token_type = kind;
          cid = cid;
          first_name = first;
          last_name = last;
          network_rating = rating;
        };
      },
    )

decode-encode : (secret : Bytes) (c : CustomClaims) → decode (encode secret c) ≡ (secret, c)
unfolding decode encode
decode-encode secret c = simp (take-append, drop-append, read_int-int)

abbrev starts : Bytes
starts = codes "AAAA.B."

-- A token that is what it says, of the issuer, and not too early or too late.
abbrev check : ℕ → Bytes → Bytes → Bytes × CustomClaims → Option CustomClaims
check now wanted secret (found, c) =
    if bytes_eq found secret
      && bytes_eq c.token_issuer wanted
      && (leb c.not_before now && ltb now c.expires_at)
    then some c
    else none

abbrev parse : ℕ → Bytes → Bytes → Bytes → Option CustomClaims
parse now wanted raw secret = elim (cut_prefix? raw starts) [
  | none ↦ none
  | some rest ↦ check now wanted secret (decode rest)
]

abbrev pub plain_jwt : Library
plain_jwt = record { sign = λ secret c. starts ++ encode secret c; parse = parse }

parse-encode :
    (now : ℕ) (wanted secret other : Bytes) (c : CustomClaims)
    → parse now wanted (starts ++ encode secret c) other ≡ check now wanted other (secret, c)
parse-encode now wanted secret other c =
    let cut : cut_prefix? (starts ++ encode secret c) starts ≡ some (encode secret c) =
      cut_prefix?-append starts (encode secret c) in
    ap
      (λ o. elim o as (λ _. Option CustomClaims) [
        | none ↦ none
        | some rest ↦ check now wanted other (decode rest)
      ])
      cut
    ∙ ap (check now wanted other) (decode-encode secret c)

pub plain_laws : Laws plain_jwt
plain_laws = record {
  parse-sign = λ now secret c early late.
      parse-encode now c.token_issuer secret secret c
      ∙ ground (arith, bytes_eq_refl secret, bytes_eq_refl c.token_issuer);
  parse-sign_expired =
      λ now wanted secret c late. parse-encode now wanted secret secret c ∙ ground arith;
  parse-sign_other = λ now wanted secret other c ne.
      parse-encode now wanted secret other c ∙ ground (arith, bytes_eq_of_ne secret other ne);
  sign-ne-nil = λ secret c e. absurd (cc);
}
