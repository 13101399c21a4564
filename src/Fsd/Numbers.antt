-- ===== src/Fsd/Numbers.antt =====
-- The machine integers that fsd/handler.go reads from packets: strconv's parsers with their bounds, and
-- the conversion to int32.
use mathlib.Core.Option
use openfsd.Prelude.{ℕ, ◌-◌, ◌%◌, ◌^◌, Option, none, some, ltb, if◌then◌else◌, min}
use openfsd.Prelude.Bytes.{Bytes}
use openfsd.Prelude.Int.{ℤ, pos, negsuc}
use openfsd.Prelude.Decimal.{parse_nat, parse_int}

-- A value out of the range of int64 is cut to its end.
abbrev pub clamp_64 : ℤ → ℤ
clamp_64 (pos n) = pos (min n (2 ^ 63 - 1))
clamp_64 (negsuc n) = negsuc (min n (2 ^ 63 - 1))

-- The first result of `strconv.Atoi`: 0 at a syntax error, and the end of the range beyond it.
abbrev pub atoi : Bytes → ℤ
atoi s = Option.get_or (Option.map clamp_64 (parse_int s)) (pos 0)

-- 32 bits as a number with a sign.
abbrev pub signed_32 : ℕ → ℤ
signed_32 n = if ltb n (2 ^ 31) then pos n else negsuc (2 ^ 32 - 1 - n)

-- `int32(x)`.
abbrev pub to_int32 : ℤ → ℤ
to_int32 (pos n) = signed_32 (n % 2 ^ 32)
to_int32 (negsuc n) = signed_32 (2 ^ 32 - 1 - n % 2 ^ 32)

abbrev in_int32 : ℤ → Option ℤ
in_int32 (pos n) = if ltb n (2 ^ 31) then some (pos n) else none
in_int32 (negsuc n) = if ltb n (2 ^ 31) then some (negsuc n) else none

-- `strconv.ParseInt(s, 10, 32)`; none is an error.
unfoldable pub parse_int32 : Bytes → Option ℤ
parse_int32 s = elim (parse_int s) [ none ↦ none | some z ↦ in_int32 z ]

-- The first result of `strconv.ParseUint(s, 10, 32)`.
abbrev pub parse_uint32 : Bytes → ℕ
parse_uint32 s = min (Option.get_or (parse_nat s) 0) (2 ^ 32 - 1)
