-- ===== src/Web/UserEditor/Password.antt =====
-- web/static/js/openfsd/usereditor.js: `evaluatePassword`, the meter below a password field.
pub mod Bands
use openfsd.Prelude.{
  ℕ, ◌+◌, Bool, ◌&&◌, ◌||◌, not, String, List, [], ◌∷◌, length, any, ltb, leb, ◌==◌, min,
  if◌then◌else◌,
}
use openfsd.Prelude.Bytes.{Bytes}

-- strengthBar.style.width in percent, strengthBar.className and feedback.textContent.
pub record Meter : Type 0 where
  pub width : ℕ
  pub class_name : String
  pub feedback : String

-- The character classes of the four regular expressions, over code units.
abbrev pub is_upper : ℕ → Bool
is_upper c = leb b'A' c && leb c b'Z'

abbrev pub is_lower : ℕ → Bool
is_lower c = leb b'a' c && leb c b'z'

abbrev pub is_number : ℕ → Bool
is_number c = leb b'0' c && leb c b'9'

abbrev pub is_symbol : ℕ → Bool
is_symbol c = not (is_upper c || is_lower c || is_number c)

abbrev points : Bool → ℕ → ℕ
points b n = if b then n else 0

-- The sum of the five `if` lines.
unfoldable pub strength : Bytes → ℕ
strength password =
    points (length password == 8) 50
    + points (any is_upper password) 15
    + points (any is_lower password) 15
    + points (any is_number password) 10
    + points (any is_symbol password) 10

-- The three bands.
unfoldable pub meter_of : ℕ → Meter
meter_of s =
    if ltb s 60
    then record {
      width = s;
      class_name = "progress-bar bg-danger";
      feedback = "Weak: Include uppercase, lowercase, numbers, or symbols.";
    }
    else if ltb s 80
    then record {
      width = s;
      class_name = "progress-bar bg-warning";
      feedback = "Moderate: Add more character types for strength.";
    }
    else record {
      width = s;
      class_name = "progress-bar bg-success";
      feedback = "Strong: Good password!";
    }

unfoldable pub evaluate_password : Bytes → Meter
unfolding strength meter_of
evaluate_password [] = record { width = 0; class_name = "progress-bar"; feedback = "" }
evaluate_password (c ∷ s) = meter_of (min (strength (c ∷ s)) 100)
