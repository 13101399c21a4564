-- ===== src/Prelude/Decimal.antt =====
-- Decimal text: `strconv.Itoa` and the `%d` verb, `strconv.Atoi`, and JavaScript's `parseInt` on the
-- text of a number.
use Prim.Native.Nat.{ℕ, zero, suc, ◌+◌, ◌-◌, ◌*◌, ◌/◌, ◌%◌, ◌<◌}
use mathlib.Core.Path.{◌≡◌, ap, ◌∙◌}
use mathlib.Core.Bool.{Bool, true, ◌&&◌}
use mathlib.Core.Logic.{inl, inr, ◌≢◌}
use mathlib.Core.Option
use mathlib.Core.Option.{Option, none, some}
use mathlib.Core.List.{[], ◌∷◌, ◌++◌}
use native.Mathlib.Omega.{arith}
use openfsd.Prelude.Tests.{ltb, leb, ◌==◌, if◌then◌else◌, Bool-cases}
use openfsd.Prelude.Lists.{All, All-append}
use openfsd.Prelude.Bytes.{Bytes}
use openfsd.Prelude.Int.{ℤ, pos, negsuc}

abbrev pub is_digit : ℕ → Bool
is_digit c = leb 48 c && leb c 57

-- The fuel bounds the number of digits; `n + 1` is enough.
digits_from : ℕ → ℕ → Bytes
digits_from zero n = []
digits_from (suc f) n =
    let rest = digits_from f (n / 10) in
    if ltb n 10 then (48 + n) ∷ [] else rest ++ (48 + n % 10) ∷ []

unfoldable pub print_nat : ℕ → Bytes
unfolding digits_from
print_nat n = digits_from (suc n) n

unfoldable pub print_int : ℤ → Bytes
unfolding print_nat
print_int (pos n) = print_nat n
print_int (negsuc n) = 45 ∷ print_nat (suc n)

-- The value of a text of digits read behind the value `acc`; none at any other character.
parse_from : ℕ → Bytes → Option ℕ
parse_from acc [] = some acc
parse_from acc (c ∷ s) = if is_digit c then parse_from (acc * 10 + (c - 48)) s else none

unfoldable pub parse_nat : Bytes → Option ℕ
unfolding parse_from
parse_nat [] = none
parse_nat (c ∷ s) = parse_from 0 (c ∷ s)

abbrev negate : ℕ → ℤ
negate zero = pos 0
negate (suc n) = negsuc n

-- `strconv.Atoi`, and `parseInt` on a whole number: a sign, then digits. The bound of the machine's
-- int is not checked.
unfoldable pub parse_int : Bytes → Option ℤ
unfolding parse_nat
parse_int [] = none
parse_int (c ∷ s) =
    if c == 45
    then Option.map negate (parse_nat s)
    else if c == 43
    then Option.map pos (parse_nat s)
    else Option.map pos (parse_nat (c ∷ s))

parse_from-append :
    (acc v : ℕ) (s t : Bytes) → parse_from acc s ≡ some v → parse_from acc (s ++ t) ≡ parse_from v t
unfolding parse_from
parse_from-append acc v [] t h = ground arith
parse_from-append acc v (c ∷ s) t h = ground (arith, parse_from-append (acc * 10 + (c - 48)) v s t)

parse-digits_from : (f n : ℕ) → n < f → parse_from 0 (digits_from f n) ≡ some n
unfolding digits_from parse_from
parse-digits_from zero n h = absurd (omega arith)
parse-digits_from (suc f) n h = elim (Bool-cases (ltb n 10)) [
  | inl small ↦ rw small (ground arith)
  | inr large ↦ rw large (
      parse_from-append 0 (n / 10) (digits_from f (n / 10)) ((48 + n % 10) ∷ [])
        (parse-digits_from f (n / 10) (ground arith))
      ∙ ground arith)
]

-- The first character of a number's text is a digit.
StartsWithDigit : Bytes → Type 0
StartsWithDigit [] = ⊥
StartsWithDigit (c ∷ s) = is_digit c ≡ true

StartsWithDigit-append : (s t : Bytes) → StartsWithDigit s → StartsWithDigit (s ++ t)
unfolding StartsWithDigit
StartsWithDigit-append [] t h = absurd h
StartsWithDigit-append (c ∷ s) t h = h

digits_from-StartsWithDigit : (f n : ℕ) → n < f → StartsWithDigit (digits_from f n)
unfolding digits_from StartsWithDigit
digits_from-StartsWithDigit zero n h = absurd (omega arith)
digits_from-StartsWithDigit (suc f) n h = elim (Bool-cases (ltb n 10)) [
  | inl small ↦ rw small (ground arith)
  | inr large ↦ rw large (
      StartsWithDigit-append (digits_from f (n / 10)) ((48 + n % 10) ∷ [])
        (digits_from-StartsWithDigit f (n / 10) (ground arith)))
]

parse_nat_of_digits :
    (s : Bytes) (v : ℕ) → StartsWithDigit s → parse_from 0 s ≡ some v → parse_nat s ≡ some v
unfolding parse_nat StartsWithDigit
parse_nat_of_digits [] v d h = absurd d
parse_nat_of_digits (c ∷ s) v d h = h

parse_int_of_digits : (s : Bytes) → StartsWithDigit s → parse_int s ≡ Option.map pos (parse_nat s)
unfolding parse_int StartsWithDigit
parse_int_of_digits [] d = absurd d
parse_int_of_digits (c ∷ s) d = ground arith

print_nat-StartsWithDigit : (n : ℕ) → StartsWithDigit (print_nat n)
unfolding print_nat
print_nat-StartsWithDigit n = digits_from-StartsWithDigit (suc n) n (omega arith)

pub parse_nat-print_nat : (n : ℕ) → parse_nat (print_nat n) ≡ some n
unfolding print_nat
parse_nat-print_nat n =
    parse_nat_of_digits (print_nat n) n (print_nat-StartsWithDigit n)
      (parse-digits_from (suc n) n (omega arith))

pub parse_int-print_int : (z : ℤ) → parse_int (print_int z) ≡ some z
unfolding print_int
parse_int-print_int (pos n) =
    parse_int_of_digits (print_nat n) (print_nat-StartsWithDigit n)
    ∙ ap (Option.map pos) (parse_nat-print_nat n)
parse_int-print_int (negsuc n) =
    unfold parse_int in ap (Option.map negate) (parse_nat-print_nat (suc n))

-- No colon and no carriage return in a number's text.
abbrev pub IsPlain : ℕ → Type 0
IsPlain c = (c ≢ 58) × (c ≢ 13)

digits_from-IsPlain : (f n : ℕ) → All IsPlain (digits_from f n)
unfolding digits_from
digits_from-IsPlain zero n = tt
digits_from-IsPlain (suc f) n = elim (Bool-cases (ltb n 10)) [
  | inl small ↦ rw small ((ground arith, ground arith), tt)
  | inr large ↦ rw large (
      All-append IsPlain (digits_from f (n / 10)) ((48 + n % 10) ∷ [])
        (digits_from-IsPlain f (n / 10)) (omega arith))
]

pub print_int-IsPlain : (z : ℤ) → All IsPlain (print_int z)
unfolding print_int print_nat
print_int-IsPlain (pos n) = digits_from-IsPlain (suc n) n
print_int-IsPlain (negsuc n) = (omega arith, digits_from-IsPlain (suc (suc n)) (suc n))
