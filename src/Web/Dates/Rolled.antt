-- ===== src/Web/Dates/Rolled.antt =====
-- web/static/js/openfsd/configeditor.js: the days that Date.UTC gives are days of the calendar.
use openfsd.Prelude.{
  ℕ, zero, suc, ◌-◌, ◌≤◌, ◌≡◌, ap, ◌∙◌, inl, inr, true, false, some, arith, ltb, ◌==◌, Bool-cases,
}
use mathlib.Core.Path.{subst}
use openfsd.Web.Dates.{
  Day, days_in_month, next_month, roll, day_before, year_of, month_of, in_range, date_utc,
}

-- A day that the calendar has.
pub record IsDay (d : Day) : Type 0 where
  pub month_low : 1 ≤ d.month
  pub month_high : d.month ≤ 12
  pub day_low : 1 ≤ d.day
  pub day_high : d.day ≤ days_in_month d.year d.month

days_in_month_ge : (y m : ℕ) → 28 ≤ days_in_month y m
days_in_month_ge y m = ground arith

next_low : (y m : ℕ) → 1 ≤ (next_month y m).1
next_low y m = ground arith

next_high : (y m : ℕ) → m ≤ 12 → (next_month y m).1 ≤ 12
next_high y m h = ground arith

-- As many months as days are enough.
roll-IsDay : (fuel y m n : ℕ) → n ≤ fuel → 1 ≤ m → m ≤ 12 → IsDay (roll fuel y m n)
unfolding roll
roll-IsDay zero y m n h lo hi = record {
  month_low = lo;
  month_high = hi;
  day_low = omega arith;
  day_high = omega (arith, days_in_month_ge y m);
}
roll-IsDay (suc fuel) y m n h lo hi = elim (Bool-cases (ltb n (days_in_month y m))) [
  | inl here ↦
      rw here
        (record { month_low = lo; month_high = hi; day_low = omega arith; day_high = ground arith })
  | inr later ↦ rw later (
      roll-IsDay fuel (next_month y m).0 (next_month y m).1 (n - days_in_month y m)
        (omega (arith, days_in_month_ge y m)) (next_low y m) (next_high y m hi))
]

day_before-IsDay : (y m : ℕ) → 1 ≤ m → m ≤ 12 → IsDay (day_before y m)
day_before-IsDay y m lo hi = elim (Bool-cases (m == 1)) [
  | inl first ↦ rw first (record {
    month_low = omega arith;
    month_high = omega arith;
    day_low = omega arith;
    day_high = refl_le;
  })
  | inr later ↦ rw later (record {
    month_low = ground arith;
    month_high = omega arith;
    day_low = omega (arith, days_in_month_ge y (m - 1));
    day_high = omega arith;
  })
]
  where
    refl_le : 31 ≤ days_in_month (y - 1) 12
    refl_le = omega arith

year_same : (y m : ℕ) → 100 ≤ y → 1 ≤ m → m ≤ 12 → year_of y m ≡ y
year_same y m old lo hi = ground arith

roll_here :
    (n y m : ℕ)
    → suc n ≤ days_in_month y m
    → roll (suc n) y m (suc n - 1) ≡ record { year = y; month = m; day = suc n }
unfolding roll
roll_here n y m h = elim (Bool-cases (ltb (suc n - 1) (days_in_month y m))) [
  | inl here ↦ rw here (ap (λ k. record { year = y; month = m; day = k }) (omega arith))
  | inr later ↦ absurd (ground arith)
]

-- Whatever numbers a date is made of, Date.UTC gives no date or a day that the calendar has.
pub date_utc-IsDay : (y m d : ℕ) (day : Day) → date_utc y m d ≡ some day → IsDay day
unfolding date_utc
date_utc-IsDay y m d day h = elim (Bool-cases (in_range y m d)) [
  | inl near ↦ elim (Bool-cases (d == 0)) [
    | inl none_of_it ↦
        subst IsDay (ground (arith, near, none_of_it, h))
          (day_before-IsDay (year_of y m) (month_of m) (omega arith) (omega arith))
    | inr some_of_it ↦
        subst IsDay (ground (arith, near, some_of_it, h)) (
          roll-IsDay d (year_of y m) (month_of m) (d - 1) (omega arith) (omega arith) (omega arith))
  ]
  | inr far ↦ absurd (ground (arith, far, h))
]

-- A day of the calendar from the year 100 on and within range is given back as it is.
pub date_utc-day :
    (y m d : ℕ)
    → IsDay (record { year = y; month = m; day = d })
    → 100 ≤ y
    → in_range y m d ≡ true
    → date_utc y m d ≡ some (record { year = y; month = m; day = d })
unfolding date_utc
date_utc-day y m zero v old near = absurd (omega arith)
date_utc-day y m (suc n) v old near =
    let same_year : year_of y m ≡ y = year_same y m old v.month_low v.month_high in
    let same_month : month_of m ≡ m = omega arith in
    let given : (suc n == 0) ≡ false = ground arith in
    rw (near, given)
      (ap (λ a. some (roll (suc n) a (month_of m) (suc n - 1))) same_year
        ∙ ap (λ b. some (roll (suc n) y b (suc n - 1))) same_month
        ∙ ap some (roll_here n y m v.day_high))
