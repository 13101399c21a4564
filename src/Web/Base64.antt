-- ===== src/Web/Base64.antt =====
-- The browser's `atob`, which web/static/js/openfsd/api.js calls on the payload of a token.
pub mod Encode
use mathlib.Core.Option
use openfsd.Prelude.{
  ℕ, zero, suc, ◌+◌, ◌-◌, ◌*◌, ◌/◌, ◌%◌, Bool, ◌&&◌, ◌||◌, List, [], ◌∷◌, Option, none, some,
  length, leb, ◌==◌, if◌then◌else◌,
}
use openfsd.Prelude.Bytes.{Bytes}

-- The six bits of a character of the standard alphabet.
unfoldable pub sextet : ℕ → Option ℕ
sextet c =
    if leb b'A' c && leb c b'Z'
    then some (c - 65)
    else if leb b'a' c && leb c b'z'
    then some (c - 71)
    else if leb b'0' c && leb c b'9'
    then some (c + 4)
    else if c == b'+'
    then some 62
    else if c == b'/'
    then some 63
    else none

unfoldable pub sextets : Bytes → Option (List ℕ)
sextets [] = some []
sextets (c ∷ s) = elim (sextet c) [ none ↦ none | some v ↦ Option.map (λ vs. v ∷ vs) (sextets s) ]

-- Four sextets are three bytes; the bits left over at the end are dropped, and a single sextet is
-- an error.
unfoldable pub join_sextets : List ℕ → Option Bytes
join_sextets [] = some []
join_sextets (a ∷ []) = none
join_sextets (a ∷ b ∷ []) = some ((a * 4 + b / 16) ∷ [])
join_sextets (a ∷ b ∷ c ∷ []) = some ((a * 4 + b / 16) ∷ (b % 16 * 16 + c / 4) ∷ [])
join_sextets (a ∷ b ∷ c ∷ d ∷ s) =
    Option.map (λ r. (a * 4 + b / 16) ∷ (b % 16 * 16 + c / 4) ∷ (c % 4 * 64 + d) ∷ r)
      (join_sextets s)

abbrev pub is_space : ℕ → Bool
is_space c = c == 9 || c == 10 || c == 12 || c == 13 || c == 32

unfoldable pub strip_space : Bytes → Bytes
strip_space [] = []
strip_space (c ∷ s) = let rest = strip_space s in if is_space c then rest else c ∷ rest

-- One '=' at the end.
unfoldable pub cut_pad : Bytes → Bytes
cut_pad [] = []
cut_pad (c ∷ []) = if c == b'=' then [] else c ∷ []
cut_pad (c ∷ d ∷ s) = c ∷ cut_pad (d ∷ s)

unfoldable pub strip_pad : Bytes → Bytes
strip_pad s = if length s % 4 == 0 then cut_pad (cut_pad s) else s

-- none is the InvalidCharacterError.
unfoldable pub atob : Bytes → Option Bytes
atob s = elim (sextets (strip_pad (strip_space s))) [ none ↦ none | some vs ↦ join_sextets vs ]

-- `base64Url.replace(/-/g, '+').replace(/_/g, '/')`, for a character.
unfoldable pub to_standard : ℕ → ℕ
to_standard c = if c == b'-' then b'+' else if c == b'_' then b'/' else c
