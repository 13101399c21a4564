-- ===== src/Web/Dates.antt =====
-- The part of JavaScript's Date that web/static/js/openfsd/configeditor.js uses: Date.UTC on a year, a
-- month and a day, the days that roll over, and toJSON of a midnight. Years run from 1899 on.
pub mod Rolled
use openfsd.Prelude.{
  ℕ, zero, suc, ◌+◌, ◌-◌, ◌*◌, ◌/◌, ◌%◌, ◌^◌, Bool, ◌&&◌, ◌||◌, not, [], ◌∷◌, ◌++◌, Option, none,
  some, ltb, leb, ◌==◌, if◌then◌else◌,
}
use openfsd.Prelude.Bytes.{Bytes, codes}

-- A day of the calendar; months count from 1.
pub record Day : Type 0 where
  pub year : ℕ
  pub month : ℕ
  pub day : ℕ

abbrev pub leap_day : ℕ → ℕ
leap_day y = if (y % 4 == 0 && not (y % 100 == 0)) || y % 400 == 0 then 1 else 0

abbrev pub days_in_month : ℕ → ℕ → ℕ
days_in_month y m =
    if m == 4 || m == 6 || m == 9 || m == 11 then 30 else if m == 2 then 28 + leap_day y else 31

-- Days before a year, counted from year 0, and before a month of it.
abbrev pub days_before_year : ℕ → ℕ
days_before_year y = 365 * y + (y + 3) / 4 - (y + 99) / 100 + (y + 399) / 400

unfoldable pub days_before_month : ℕ → ℕ → ℕ
days_before_month y zero = 0
days_before_month y (suc zero) = 0
days_before_month y (suc (suc m)) = days_before_month y (suc m) + days_in_month y (suc m)

abbrev pub next_month : ℕ → ℕ → ℕ × ℕ
next_month y m = if m == 12 then (y + 1, 1) else (y, m + 1)

-- The day that is `n` days behind the first of a month. The fuel bounds the months that are passed;
-- `n` is enough.
unfoldable pub roll : ℕ → ℕ → ℕ → ℕ → Day
roll zero y m n = record { year = y; month = m; day = n + 1 }
roll (suc fuel) y m n =
    let (y', m') = next_month y m in
    let rest = roll fuel y' m' (n - days_in_month y m) in
    if ltb n (days_in_month y m) then record { year = y; month = m; day = n + 1 } else rest

-- Years below 100 are years of the twentieth century.
abbrev pub full_year : ℕ → ℕ
full_year y = if ltb y 100 then 1900 + y else y

-- The last day of the month before.
abbrev pub day_before : ℕ → ℕ → Day
day_before y m =
    if m == 1
    then record { year = y - 1; month = 12; day = 31 }
    else record { year = y; month = m - 1; day = days_in_month y (m - 1) }

-- The year and the month of the first day that `Date.UTC` counts from: month 0 is the December before,
-- and months above 12 are in later years.
abbrev pub year_of : ℕ → ℕ → ℕ
year_of y m = full_year y + (m + 11) / 12 - 1

abbrev pub month_of : ℕ → ℕ
month_of m = (m + 11) % 12 + 1

-- The largest time value is 100,000,000 days from 1970-01-01, which is day 719,528 from year 0.
abbrev pub in_range : ℕ → ℕ → ℕ → Bool
in_range y m d =
    leb (days_before_year (year_of y m) + days_before_month (year_of y m) (month_of m) + d)
      (719528 + 100000000 + 1)

-- `new Date(Date.UTC(year, month - 1, day))`; none is an invalid date.
unfoldable pub date_utc : ℕ → ℕ → ℕ → Option Day
unfolding days_before_month roll
date_utc y m d =
    if not (in_range y m d)
    then none
    else if d == 0
    then some (day_before (year_of y m) (month_of m))
    else some (roll d (year_of y m) (month_of m) (d - 1))

abbrev pub digit_at : ℕ → ℕ → ℕ
digit_at p n = 48 + n / p % 10

abbrev pub two_digits : ℕ → Bytes
two_digits n = digit_at 10 n ∷ digit_at 1 n ∷ []

abbrev pub four_digits : ℕ → Bytes
four_digits n = digit_at 1000 n ∷ digit_at 100 n ∷ digit_at 10 n ∷ digit_at 1 n ∷ []

abbrev pub six_digits : ℕ → Bytes
six_digits n = digit_at 100000 n ∷ digit_at 10000 n ∷ four_digits n

-- Years from 10000 on have a sign and six digits.
abbrev pub year_text : ℕ → Bytes
year_text y = if ltb y 10000 then four_digits y else b'+' ∷ six_digits y

-- The text of a day as a date input gives it, for years up to 9999.
abbrev pub day_text : Day → Bytes
day_text d = year_text d.year ++ (b'-' ∷ (two_digits d.month ++ (b'-' ∷ two_digits d.day)))

-- `toJSON` of a day's midnight.
unfoldable pub to_json : Day → Bytes
to_json d = day_text d ++ codes "T00:00:00.000Z"
