-- ===== src/Callsign/Facility.antt =====
-- fsd/util.go: network ratings and the facility types that they allow.
use openfsd.Prelude.{Bool, true, false, if◌then◌else◌, ◌≡◌, refl, ◌↔◌, arith, zero, suc}
use openfsd.Prelude.Int.{ℤ, pos, negsuc, leb_ℤ, eqb_ℤ, ◌≤ℤ◌}

-- The NetworkRating constants that the server compares with.
abbrev pub suspended : ℤ
suspended = pos 0

abbrev pub observer : ℤ
observer = pos 1

abbrev pub student1 : ℤ
student1 = pos 2

abbrev pub student2 : ℤ
student2 = pos 3

abbrev pub student3 : ℤ
student3 = pos 4

abbrev pub controller1 : ℤ
controller1 = pos 5

abbrev pub supervisor : ℤ
supervisor = pos 11

abbrev pub administrator : ℤ
administrator = pos 12

-- The map literal: a missing key gives the zero rating.
min_rating : ℤ → ℤ
min_rating t =
    if eqb_ℤ t (pos 1)
    then controller1
    else if eqb_ℤ t (pos 2)
    then student1
    else if eqb_ℤ t (pos 3)
    then student1
    else if eqb_ℤ t (pos 4)
    then student2
    else if eqb_ℤ t (pos 5)
    then student3
    else if eqb_ℤ t (pos 6)
    then controller1
    else pos 0

unfoldable pub is_allowed_facility_type : ℤ → ℤ → Bool
unfolding min_rating
is_allowed_facility_type rating facility_type =
    if eqb_ℤ facility_type (pos 0)
    then true
    else if eqb_ℤ (min_rating facility_type) (pos 0)
    then false
    else leb_ℤ (min_rating facility_type) rating

-- The ladder of facilities: who may open what.
pub data MayOpen (rating : ℤ) : ℤ → Type 0 where
  observing : MayOpen rating (pos 0)
  flight_service : controller1 ≤ℤ rating → MayOpen rating (pos 1)
  delivery : student1 ≤ℤ rating → MayOpen rating (pos 2)
  ground_control : student1 ≤ℤ rating → MayOpen rating (pos 3)
  tower : student2 ≤ℤ rating → MayOpen rating (pos 4)
  approach : student3 ≤ℤ rating → MayOpen rating (pos 5)
  centre : controller1 ≤ℤ rating → MayOpen rating (pos 6)

-- A rating that may open a facility keeps it as it rises.
pub is_allowed_facility_type_mono :
    (r s t : ℤ) → r ≤ℤ s → is_allowed_facility_type r t ≡ true → is_allowed_facility_type s t ≡ true
unfolding is_allowed_facility_type
is_allowed_facility_type_mono r s t le h = ground arith

allowed_to : (r t : ℤ) → is_allowed_facility_type r t ≡ true → MayOpen r t
unfolding is_allowed_facility_type
allowed_to r (pos zero) h = observing
allowed_to r (pos (suc zero)) h = flight_service (ground arith)
allowed_to r (pos (suc (suc zero))) h = delivery (ground arith)
allowed_to r (pos (suc (suc (suc zero)))) h = ground_control (ground arith)
allowed_to r (pos (suc (suc (suc (suc zero))))) h = tower (ground arith)
allowed_to r (pos (suc (suc (suc (suc (suc zero)))))) h = approach (ground arith)
allowed_to r (pos (suc (suc (suc (suc (suc (suc zero))))))) h = centre (ground arith)
allowed_to r (pos (suc (suc (suc (suc (suc (suc (suc n)))))))) h = absurd (ground arith)
allowed_to r (negsuc n) h = absurd (ground arith)

allowed_from : (r t : ℤ) → MayOpen r t → is_allowed_facility_type r t ≡ true
unfolding is_allowed_facility_type
allowed_from r t observing = refl
allowed_from r t (flight_service h) = ground arith
allowed_from r t (delivery h) = ground arith
allowed_from r t (ground_control h) = ground arith
allowed_from r t (tower h) = ground arith
allowed_from r t (approach h) = ground arith
allowed_from r t (centre h) = ground arith

-- `isAllowedFacilityType` lets exactly the ratings of the ladder through, and no facility type
-- outside 0 to 6.
pub is_allowed_facility_type_iff :
    (rating facility_type : ℤ)
    → (is_allowed_facility_type rating facility_type ≡ true) ↔ MayOpen rating facility_type
is_allowed_facility_type_iff rating t = (allowed_to rating t, allowed_from rating t)
