-- ===== src/Web/UserEditor/Password/Bands.antt =====
-- What the password meter shows, and for which passwords.
use openfsd.Prelude.{
  ℕ, ◌≤◌, ◌≡◌, ◌≢◌, ◌↔◌, refl, Bool, true, ◌&&◌, ◌||◌, [], ◌∷◌, length, any, arith, min, ◌<◌,
  str_eq_iff, String, ltb, Bool-cases, inl, inr,
}
use openfsd.Prelude.Bytes.{Bytes}
use openfsd.Web.UserEditor.Password.{
  is_upper, is_lower, is_number, is_symbol, strength, meter_of, evaluate_password,
}

strength-le-100 : (s : Bytes) → strength s ≤ 100
unfolding strength
strength-le-100 s = ground arith

strength_short : (s : Bytes) → length s ≢ 8 → strength s ≤ 50
unfolding strength
strength_short s h = ground arith

width-meter_of : (n : ℕ) → (meter_of n).width ≡ n
unfolding meter_of
width-meter_of n = ground arith

meter_of_weak : (n : ℕ) → n < 60 → (meter_of n).class_name ≡ "progress-bar bg-danger"
unfolding meter_of
meter_of_weak n h = ground arith

-- The bar never overflows, and shows the sum of the points itself: the cap at 100 cuts nothing.
pub width-evaluate_password :
    (s : Bytes)
    → s ≢ []
    → ((evaluate_password s).width ≡ strength s) × ((evaluate_password s).width ≤ 100)
unfolding evaluate_password
width-evaluate_password [] n = absurd (n refl)
width-evaluate_password (c ∷ s) n =
    omega (arith, width-meter_of (min (strength (c ∷ s)) 100), strength-le-100 (c ∷ s))

-- A password that is not empty, of any length but 8, never leaves the lowest band, however long it
-- is and whatever characters it has: the length test is for equality.
pub evaluate_password_weak :
    (s : Bytes)
    → s ≢ []
    → length s ≢ 8
    → (evaluate_password s).class_name ≡ "progress-bar bg-danger"
unfolding evaluate_password
evaluate_password_weak [] n h = absurd (n refl)
evaluate_password_weak (c ∷ s) n h =
    meter_of_weak (min (strength (c ∷ s)) 100) (omega (arith, strength_short (c ∷ s) h))

-- Letters of both cases, or letters of one case with a digit and a symbol.
abbrev pub is_mixed : Bytes → Bool
is_mixed s =
    any is_upper s && any is_lower s
    || (any is_upper s || any is_lower s) && any is_number s && any is_symbol s

strength-ge-80_iff : (s : Bytes) → (80 ≤ strength s) ↔ ((length s ≡ 8) × (is_mixed s ≡ true))
unfolding strength
strength-ge-80_iff s = (λ h. (ground arith, ground arith), λ h. ground arith)

abbrev success : String
success = "progress-bar bg-success"

danger-ne-success : "progress-bar bg-danger" ≢ success
danger-ne-success = ground (arith, str_eq_iff "progress-bar bg-danger" success)

warning-ne-success : "progress-bar bg-warning" ≢ success
warning-ne-success = ground (arith, str_eq_iff "progress-bar bg-warning" success)

plain-ne-success : "progress-bar" ≢ success
plain-ne-success = ground (arith, str_eq_iff "progress-bar" success)

meter_of-success : (n : ℕ) → (meter_of n).class_name ≡ success → 80 ≤ n
unfolding meter_of
meter_of-success n h = elim (Bool-cases (ltb n 60)) [
  | inl low ↦ absurd (danger-ne-success (rw (low, meter_of) at h))
  | inr low ↦ elim (Bool-cases (ltb n 80)) [
    | inl middle ↦ absurd (warning-ne-success (rw (low, middle, meter_of) at h))
    | inr high ↦ ground arith
  ]
]

meter_of_high : (n : ℕ) → 80 ≤ n → (meter_of n).class_name ≡ success
unfolding meter_of
meter_of_high n h = ground arith

-- A password is shown as strong exactly when it has eight code units, with letters of both cases, or
-- letters of one case with a digit and a symbol.
pub evaluate_password_strong_iff :
    (s : Bytes)
    → ((evaluate_password s).class_name ≡ "progress-bar bg-success")
      ↔ ((length s ≡ 8) × (is_mixed s ≡ true))
unfolding evaluate_password
evaluate_password_strong_iff [] =
    (λ h. absurd (plain-ne-success h), λ h. absurd (omega (arith, h.0)))
evaluate_password_strong_iff (c ∷ s) = (
  λ h.
      (strength-ge-80_iff (c ∷ s)).0
        (omega (arith, meter_of-success (min (strength (c ∷ s)) 100) h)),
  λ h.
      meter_of_high (min (strength (c ∷ s)) 100)
        (omega (arith, (strength-ge-80_iff (c ∷ s)).1 h, strength-le-100 (c ∷ s))),
)
