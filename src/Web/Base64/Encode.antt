-- ===== src/Web/Base64/Encode.antt =====
-- The text that a token's maker writes for bytes (RFC 4648 section 5, without padding), and that
-- `atob` reads it back once its two own characters are replaced.
use openfsd.Prelude.{
  ℕ, ◌+◌, ◌-◌, ◌*◌, ◌/◌, ◌%◌, ◌<◌, ◌≡◌, ◌≢◌, refl, ap, false, List, [], ◌∷◌, map, some, arith, All,
  ltb, ◌==◌, if◌then◌else◌,
}
use openfsd.Prelude.Bytes.{Bytes}
use openfsd.Web.Base64.{
  sextet, sextets, join_sextets, strip_space, cut_pad, strip_pad, atob, is_space, to_standard,
}

unfoldable pub url_char : ℕ → ℕ
url_char v =
    if ltb v 26
    then v + 65
    else if ltb v 52
    then v + 71
    else if ltb v 62
    then v - 4
    else if v == 62
    then b'-'
    else b'_'

unfoldable pub split_sextets : Bytes → List ℕ
split_sextets [] = []
split_sextets (a ∷ []) = (a / 4) ∷ (a % 4 * 16) ∷ []
split_sextets (a ∷ b ∷ []) = (a / 4) ∷ (a % 4 * 16 + b / 16) ∷ (b % 16 * 4) ∷ []
split_sextets (a ∷ b ∷ c ∷ s) =
    (a / 4) ∷ (a % 4 * 16 + b / 16) ∷ (b % 16 * 4 + c / 64) ∷ (c % 64) ∷ split_sextets s

unfoldable pub url_encode : Bytes → Bytes
unfolding split_sextets url_char
url_encode s = map url_char (split_sextets s)

join-split_sextets : (s : Bytes) → All (λ b. b < 256) s → join_sextets (split_sextets s) ≡ some s
unfolding join_sextets split_sextets
join-split_sextets [] h = refl
join-split_sextets (a ∷ []) h = ground arith
join-split_sextets (a ∷ b ∷ []) h = ground arith
join-split_sextets (a ∷ b ∷ c ∷ s) h = ground (arith, join-split_sextets s)

split_sextets-small : (s : Bytes) → All (λ b. b < 256) s → All (λ v. v < 64) (split_sextets s)
unfolding split_sextets
split_sextets-small [] h = tt
split_sextets-small (a ∷ []) h = omega arith
split_sextets-small (a ∷ b ∷ []) h = omega arith
split_sextets-small (a ∷ b ∷ c ∷ s) (p, (q, (r, h))) =
    (omega arith, (omega arith, (omega arith, (omega arith, split_sextets-small s h))))

sextet-to_standard : (v : ℕ) → v < 64 → sextet (to_standard (url_char v)) ≡ some v
unfolding sextet to_standard url_char
sextet-to_standard v h = ground arith

-- What `atob` strips does not occur in such a text.
abbrev IsPlain : Bytes → Type 0
IsPlain s = All (λ c. (is_space c ≡ false) × (c ≢ b'=')) s

to_standard-plain :
    (v : ℕ) → (is_space (to_standard (url_char v)) ≡ false) × (to_standard (url_char v) ≢ b'=')
unfolding to_standard url_char
to_standard-plain v = (ground arith, ground arith)

map-IsPlain : (vs : List ℕ) → IsPlain (map to_standard (map url_char vs))
map-IsPlain [] = tt
map-IsPlain (v ∷ vs) = (to_standard-plain v, map-IsPlain vs)

strip_space_of_IsPlain : (s : Bytes) → IsPlain s → strip_space s ≡ s
unfolding strip_space
strip_space_of_IsPlain [] h = refl
strip_space_of_IsPlain (c ∷ s) ((p, q), h) = rw p (ap (λ r. c ∷ r) (strip_space_of_IsPlain s h))

cut_pad_of_IsPlain : (s : Bytes) → IsPlain s → cut_pad s ≡ s
unfolding cut_pad
cut_pad_of_IsPlain [] h = refl
cut_pad_of_IsPlain (c ∷ []) ((p, q), h) = ground arith
cut_pad_of_IsPlain (c ∷ d ∷ s) ((p, q), h) = ap (λ r. c ∷ r) (cut_pad_of_IsPlain (d ∷ s) h)

strip_pad_of_IsPlain : (s : Bytes) → IsPlain s → strip_pad s ≡ s
unfolding strip_pad
strip_pad_of_IsPlain s h = ground (arith, cut_pad_of_IsPlain s h)

sextets-map :
    (vs : List ℕ) → All (λ v. v < 64) vs → sextets (map to_standard (map url_char vs)) ≡ some vs
unfolding sextets
sextets-map [] h = refl
sextets-map (v ∷ vs) (p, h) = ground (arith, sextet-to_standard v p, sextets-map vs h)

-- `atob` reads back the bytes that were encoded in the URL alphabet without padding, once the two
-- characters of this alphabet are replaced.
pub atob-url_encode :
    (s : Bytes) → All (λ b. b < 256) s → atob (map to_standard (url_encode s)) ≡ some s
unfolding atob url_encode
atob-url_encode s h =
    let vs = split_sextets s in
    let text = map to_standard (map url_char vs) in
    ground (
      arith,
      strip_space_of_IsPlain text (map-IsPlain vs),
      strip_pad_of_IsPlain text (map-IsPlain vs),
      sextets-map vs (split_sextets-small s h),
      join-split_sextets s h,
    )
