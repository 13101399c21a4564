-- ===== src/Web/ConfigEditor/NewToken.antt =====
-- web/static/js/openfsd/configeditor.js: the form that makes an API token.
use openfsd.Prelude.{
  ℕ, suc, ◌+◌, ◌-◌, ◌*◌, ◌≤◌, ◌<◌, ◌≡◌, refl, ap, ◌∙◌, true, String, List, [], ◌∷◌, ◌++◌, Option,
  none, some, arith, lt→ltb, zero, ◌==◌, if◌then◌else◌,
}
use openfsd.Prelude.Bytes.{Bytes, codes}
use openfsd.Prelude.Decimal.{is_digit}
use openfsd.Web.Dates.{
  Day, day_text, to_json, date_utc, in_range, year_of, month_of, days_before_month, days_in_month,
  four_digits, two_digits, digit_at,
}
use openfsd.Web.Dates.Rolled.{IsDay, date_utc-day}

-- `split('-')`.
abbrev pub onto_first : ℕ → List Bytes → List Bytes
onto_first c [] = (c ∷ []) ∷ []
onto_first c (p ∷ ps) = (c ∷ p) ∷ ps

unfoldable pub split_dash : Bytes → List Bytes
split_dash [] = [] ∷ []
split_dash (c ∷ s) = let rest = split_dash s in if c == b'-' then [] ∷ rest else onto_first c rest

-- `Number(part)` of a part made of digits, 0 for an empty one; none is NaN. A date input hands out no
-- signs, fractions or spaces.
unfoldable pub number_from : ℕ → Bytes → Option ℕ
number_from acc [] = some acc
number_from acc (c ∷ s) = if is_digit c then number_from (acc * 10 + (c - 48)) s else none

-- What a click on the form's button leads to: a message, or the request with the time of expiry.
pub data Submitted : Type 0 where
  shows : String → Submitted
  posts : Bytes → Submitted

abbrev pub submit_day : Option Day → Submitted
submit_day none = shows "Invalid date."
submit_day (some d) = posts (to_json d)

abbrev pub submit_numbers : Option ℕ → Option ℕ → Option ℕ → Submitted
submit_numbers (some y) (some m) (some d) = submit_day (date_utc y m d)
submit_numbers _ _ _ = shows "Invalid date format."

-- A part that is missing is undefined, which is no number.
abbrev pub submit_parts : List Bytes → Submitted
submit_parts (y ∷ m ∷ d ∷ rest) =
    submit_numbers (number_from 0 y) (number_from 0 m) (number_from 0 d)
submit_parts _ = shows "Invalid date format."

-- The first argument is the present time with the next year, as `toJSON` writes it.
unfoldable pub submit_create_token : Bytes → Bytes → Submitted
unfolding split_dash number_from to_json
submit_create_token next_year [] = posts next_year
submit_create_token next_year (c ∷ s) = submit_parts (split_dash (c ∷ s))

number_of_two : (n : ℕ) → n < 100 → number_from 0 (two_digits n) ≡ some n
unfolding number_from
number_of_two n h = ground arith

number_of_four : (n : ℕ) → n < 10000 → number_from 0 (four_digits n) ≡ some n
unfolding number_from
number_of_four n h = ground arith

split_dash-digit :
    (p n : ℕ) (s : Bytes) → split_dash (digit_at p n ∷ s) ≡ onto_first (digit_at p n) (split_dash s)
unfolding split_dash
split_dash-digit p n s = ground arith

split_dash-two :
    (n : ℕ) (s : Bytes) → split_dash (two_digits n ++ (b'-' ∷ s)) ≡ two_digits n ∷ split_dash s
unfolding split_dash
split_dash-two n s =
    split_dash-digit 10 n (digit_at 1 n ∷ b'-' ∷ s)
    ∙ ap (onto_first (digit_at 10 n)) (split_dash-digit 1 n (b'-' ∷ s))

split_dash-last : (n : ℕ) → split_dash (two_digits n) ≡ two_digits n ∷ []
unfolding split_dash
split_dash-last n =
    split_dash-digit 10 n (digit_at 1 n ∷ [])
    ∙ ap (onto_first (digit_at 10 n)) (split_dash-digit 1 n [])

split_dash-four :
    (n : ℕ) (s : Bytes) → split_dash (four_digits n ++ (b'-' ∷ s)) ≡ four_digits n ∷ split_dash s
unfolding split_dash
split_dash-four n s =
    split_dash-digit 1000 n (digit_at 100 n ∷ (two_digits n ++ (b'-' ∷ s)))
    ∙ ap (onto_first (digit_at 1000 n)) (split_dash-digit 100 n (two_digits n ++ (b'-' ∷ s)))
    ∙ ap (λ r. onto_first (digit_at 1000 n) (onto_first (digit_at 100 n) r)) (split_dash-two n s)

-- The text of a day with four digits for its year.
abbrev short_text : ℕ → ℕ → ℕ → Bytes
short_text y m d = four_digits y ++ (b'-' ∷ (two_digits m ++ (b'-' ∷ two_digits d)))

split_dash-short_text :
    (y m d : ℕ) → split_dash (short_text y m d) ≡ four_digits y ∷ two_digits m ∷ two_digits d ∷ []
split_dash-short_text y m d =
    split_dash-four y (two_digits m ++ (b'-' ∷ two_digits d))
    ∙ ap (λ r. four_digits y ∷ r)
        (split_dash-two m (two_digits d) ∙ ap (λ r. two_digits m ∷ r) (split_dash-last d))

days_before_month-le : (y m : ℕ) → days_before_month y m ≤ 31 * m
unfolding days_before_month
days_before_month-le y zero = omega arith
days_before_month-le y (suc zero) = omega arith
days_before_month-le y (suc (suc m)) = ground (arith, days_before_month-le y (suc m))

days_in_month-le : (y m : ℕ) → days_in_month y m ≤ 31
days_in_month-le y m = ground arith

near_enough : (y m d : ℕ) → 100 ≤ y → y < 10000 → m ≤ 12 → d ≤ 31 → in_range y m d ≡ true
near_enough y m d old small hi le = ground (arith, days_before_month-le (year_of y m) (month_of m))

-- A day of the calendar from the year 100 to the year 9999 that is chosen in the form is posted as
-- that day's midnight.
pub submit-day_text :
    (next_year : Bytes) (d : Day)
    → IsDay d
    → 100 ≤ d.year
    → d.year < 10000
    → submit_create_token next_year (day_text d) ≡ posts (day_text d ++ codes "T00:00:00.000Z")
unfolding submit_create_token
submit-day_text next_year d v old small =
    let near =
      near_enough d.year d.month d.day old small v.month_high
        (omega (arith, v.day_high, days_in_month-le d.year d.month)) in
    rw (lt→ltb d.year 10000 small) (
      ap submit_parts (split_dash-short_text d.year d.month d.day)
      ∙ numbers_read
      ∙ ap submit_day (date_utc-day d.year d.month d.day v old near)
      ∙ json)
  where
    numbers_read :
        submit_parts (four_digits d.year ∷ two_digits d.month ∷ two_digits d.day ∷ [])
        ≡ submit_day (date_utc d.year d.month d.day)
    numbers_read =
        rw
          (
            number_of_four d.year small,
            number_of_two d.month (omega arith),
            number_of_two d.day (omega (arith, days_in_month-le d.year d.month)),
          )
          refl

    json : posts (to_json d) ≡ posts (short_text d.year d.month d.day ++ codes "T00:00:00.000Z")
    json = rw (lt→ltb d.year 10000 small) refl
