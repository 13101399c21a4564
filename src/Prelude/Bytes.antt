-- ===== src/Prelude/Bytes.antt =====
-- Go's byte slices and strings, and JavaScript's strings of code units, as lists of numbers, with
-- the functions of Go's packages bytes and strings that the server calls.
use Prim.Native.Char.{code}
use Prim.Native.Nat.{ℕ}
use Prim.Native.String.{String}
use mathlib.Core.Path.{◌≡◌, refl, ap}
use mathlib.Core.Logic.{◌≢◌, ◌↔◌}
use mathlib.Core.Bool.{Bool, true, false, ◌&&◌}
use mathlib.Core.Option.{Option, none, some}
use mathlib.Core.List.{List, [], ◌∷◌, ◌++◌}
use native.Mathlib.Omega.{arith}
use openfsd.Prelude.Tests.{◌==◌, if◌then◌else◌}

abbrev pub Bytes : Type 0
Bytes = List ℕ

-- The bytes of an ASCII text.
abbrev pub codes : String → Bytes
codes String.[] = []
codes (String.◌∷◌ c s) = code c ∷ codes s

-- `a == b` on Go strings.
unfoldable pub bytes_eq : Bytes → Bytes → Bool
bytes_eq [] [] = true
bytes_eq [] (y ∷ ys) = false
bytes_eq (x ∷ xs) [] = false
bytes_eq (x ∷ xs) (y ∷ ys) = x == y && bytes_eq xs ys

pub bytes_eq→eq : (a b : Bytes) → bytes_eq a b ≡ true → a ≡ b
unfolding bytes_eq
bytes_eq→eq [] [] h = refl
bytes_eq→eq [] (y ∷ ys) h = ground arith
bytes_eq→eq (x ∷ xs) [] h = ground arith
bytes_eq→eq (x ∷ xs) (y ∷ ys) h = ground (arith, bytes_eq→eq xs ys)

pub bytes_eq_refl : (a : Bytes) → bytes_eq a a ≡ true
unfolding bytes_eq
bytes_eq_refl [] = refl
bytes_eq_refl (x ∷ xs) = ground (arith, bytes_eq_refl xs)

pub bytes_eq_iff : (a b : Bytes) → (bytes_eq a b ≡ true) ↔ (a ≡ b)
bytes_eq_iff a b = (bytes_eq→eq a b, λ e. subst_self e)
  where
    subst_self : a ≡ b → bytes_eq a b ≡ true
    subst_self e = rw (← e) (bytes_eq_refl a)

pub bytes_eq_of_ne : (a b : Bytes) → a ≢ b → bytes_eq a b ≡ false
bytes_eq_of_ne a b h = ground (arith, bytes_eq_iff a b)

-- `bytes.CutPrefix`: the text behind the prefix, or none where it does not start with it.
unfoldable pub cut_prefix? : Bytes → Bytes → Option Bytes
cut_prefix? s [] = some s
cut_prefix? [] (p ∷ ps) = none
cut_prefix? (c ∷ s) (p ∷ ps) = if c == p then cut_prefix? s ps else none

-- The first result of `bytes.CutPrefix`: all of the text where the prefix is absent.
unfoldable pub cut_prefix : Bytes → Bytes → Bytes
unfolding cut_prefix?
cut_prefix s p = elim (cut_prefix? s p) [ none ↦ s | some r ↦ r ]

-- `bytes.CutSuffix(s, "\r\n")`.
unfoldable pub cut_crlf : Bytes → Bytes
cut_crlf [] = []
cut_crlf (a ∷ []) = a ∷ []
cut_crlf (a ∷ b ∷ []) = if a == 13 && b == 10 then [] else a ∷ b ∷ []
cut_crlf (a ∷ b ∷ c ∷ s) = a ∷ cut_crlf (b ∷ c ∷ s)

abbrev pub crlf : Bytes
crlf = 13 ∷ 10 ∷ []

pub cut_crlf-append : (s : Bytes) → cut_crlf (s ++ crlf) ≡ s
unfolding cut_crlf
cut_crlf-append [] = refl
cut_crlf-append (a ∷ []) = refl
cut_crlf-append (a ∷ b ∷ []) = refl
cut_crlf-append (a ∷ b ∷ c ∷ s) = ap (λ r. a ∷ r) (cut_crlf-append (b ∷ c ∷ s))

pub cut_prefix?-append : (p s : Bytes) → cut_prefix? (p ++ s) p ≡ some s
unfolding cut_prefix?
cut_prefix?-append [] s = refl
cut_prefix?-append (c ∷ p) s = ground (arith, cut_prefix?-append p s)

pub cut_prefix-append : (p s : Bytes) → cut_prefix (p ++ s) p ≡ s
unfolding cut_prefix
cut_prefix-append p s = rw (cut_prefix?-append p s, cut_prefix)
