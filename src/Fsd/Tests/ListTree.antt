-- ===== src/Fsd/Tests/ListTree.antt =====
-- A tree for tests, that is a list of items, over whole numbers in place of float64: what the server
-- relies on (fsd/postoffice.go) can hold.
use openfsd.Prelude.{
  ℕ, ◌+◌, ◌-◌, ◌*◌, ◌/◌, ◌≤◌, ◌≡◌, ◌≢◌, ◌⊎◌, inl, inr, refl, ap, ◌∙◌, Bool, true, false, ◌&&◌, List,
  [], ◌∷◌, arith, ltb, leb, ◌==◌, take, if◌then◌else◌,
}
use openfsd.Prelude.Int.{pos}
use openfsd.Prelude.Decimal.{parse_nat}
use openfsd.Fsd.Env.{Env, count, Laws}

abbrev pub Corners : Type 0
Corners = ℕ × ℕ × ℕ × ℕ

abbrev pub Items : Type 0
Items = List (Corners × ℕ)

abbrev pub same : Corners → Corners → Bool
same (a, b, c, d) (a', b', c', d') = a == a' && b == b' && (c == c' && d == d')

abbrev pub meets : Corners → Corners → Bool
meets (a, b, c, d) (a', b', c', d') = leb a c' && leb a' c && (leb b d' && leb b' d)

unfoldable pub remove : Corners → ℕ → Items → Items
remove b c [] = []
remove b c ((b', c') ∷ t) =
    let rest = remove b c t in if c' == c && same b b' then t else (b', c') ∷ rest

unfoldable pub found : Corners → Items → List ℕ
found q [] = []
found q ((b, c) ∷ t) = let rest = found q t in if meets q b then c ∷ rest else rest

unfoldable pub copies : Items → ℕ → ℕ
copies [] c = 0
copies ((b, c') ∷ t) c = (if c' == c then 1 else 0) + copies t c

abbrev pub Holds : Items → Corners → ℕ → Type 0
Holds [] b c = ⊥
Holds ((b', c') ∷ t) b c = ((b' ≡ b) × (c' ≡ c)) ⊎ Holds t b c

abbrev pub flat : Env
flat = record {
  Float = ℕ;
  eq = λ a b. a == b;
  lt = ltb;
  add = λ a b. a + b;
  sub = λ a b. a - b;
  mul = λ a b. a * b;
  div = λ a b. a / b;
  sin = λ a. a;
  cos = λ a. 1;
  sqrt = λ a. a;
  atan2 = λ a b. a + b;
  zero = 0;
  one = 1;
  two = 2;
  half = 1;
  five = 5;
  earth_radius = 1;
  deg_to_rad = 1;
  meters_per_degree_lat = 1;
  nautical_mile = 1;
  miles_per_meter = 1;
  pilot_vis_range = 3;
  heading_ratio = 1;
  max_float = 1000000;
  of_ℕ = λ n. n;
  to_int = pos;
  parse_float = parse_nat;
  md5 = λ s. take 16 s;
  Tree = Items;
  empty = [];
  insert = λ b c t. (b, c) ∷ t;
  delete = remove;
  search = found;
}

copies_of_Holds : (b : Corners) (c : ℕ) (t : Items) → Holds t b c → 1 ≤ copies t c
unfolding copies
copies_of_Holds b c [] h = absurd h
copies_of_Holds b c ((e, f) ∷ t) (inl (p, q)) = ground arith
copies_of_Holds b c ((e, f) ∷ t) (inr h) = omega (arith, copies_of_Holds b c t h)

pub copies-remove :
    (b b' : Corners) (c : ℕ) (t : Items)
    → Holds t b' c
    → same b b' ≡ true
    → copies (remove b c t) c + 1 ≡ copies t c
unfolding copies remove
copies-remove b b' c [] h s = absurd h
copies-remove b b' c ((e, f) ∷ t) (inl (p, q)) s =
    let s' : same b e ≡ true = ap (same b) p ∙ s in ground (arith, s')
copies-remove b b' c ((e, f) ∷ t) (inr held) s = ground (arith, copies-remove b b' c t held s)

pub copies-remove_other :
    (b : Corners) (c d : ℕ) (t : Items) → c ≢ d → copies (remove b c t) d ≡ copies t d
unfolding copies remove
copies-remove_other b c d [] n = refl
copies-remove_other b c d ((e, f) ∷ t) n = ground (arith, copies-remove_other b c d t n)

if-Holds :
    (u : Bool) (x : Corners × ℕ) (t t' : Items) (b : Corners) (d : ℕ)
    → (u ≡ true → Holds t b d)
    → Holds (x ∷ t') b d
    → Holds (if u then t else x ∷ t') b d
if-Holds true x t t' b d f h = f refl
if-Holds false x t t' b d f h = h

pub Holds-remove_other :
    (b b' : Corners) (c d : ℕ) (t : Items) → c ≢ d → Holds t b' d → Holds (remove b c t) b' d
unfolding remove
Holds-remove_other b b' c d [] n h = h
Holds-remove_other b b' c d ((e, f) ∷ t) n (inl (p, q)) =
    if-Holds (f == c && same b e) (e, f) t (remove b c t) b' d (λ u. absurd (ground arith))
      (inl (p, q))
Holds-remove_other b b' c d ((e, f) ∷ t) n (inr h) =
    if-Holds (f == c && same b e) (e, f) t (remove b c t) b' d (λ u. h)
      (inr (Holds-remove_other b b' c d t n h))

pub count-found_absent :
    (q : Corners) (c : ℕ) (t : Items) → copies t c ≡ 0 → count c (found q t) ≡ 0
unfolding copies found
count-found_absent q c [] h = refl
count-found_absent q c ((e, f) ∷ t) h = ground (arith, count-found_absent q c t (omega (arith, h)))

pub count-found :
    (q b : Corners) (c : ℕ) (t : Items)
    → copies t c ≡ 1
    → Holds t b c
    → count c (found q t) ≡ (if meets q b then 1 else 0)
unfolding copies found
count-found q b c [] once h = absurd h
count-found q b c ((e, f) ∷ t) once (inl (p, r)) =
    let absent = count-found_absent q c t (ground (arith, once, r)) in
    ground (arith, absent, ap (meets q) p)
count-found q b c ((e, f) ∷ t) once (inr h) =
    let less = copies_of_Holds b c t h in ground (arith, less, count-found q b c t)

pub same_sym : (a b : ℕ) → (a == b) ≡ true → (b == a) ≡ true
same_sym a b h = ground arith

pub same_trans : (a b c : ℕ) → (a == b) ≡ true → (b == c) ≡ true → (a == c) ≡ true
same_trans a b c h k = ground arith

pub meets_eq : (q b b' : Corners) → same b b' ≡ true → meets q b ≡ meets q b'
meets_eq (x, y, z, u) (a, b, c, d) (a', b', c', d') h = ground arith

abbrev pub flat_laws : Laws flat
unfolding copies
flat_laws = record {
  eq_sym = same_sym;
  eq_trans = same_trans;
  intersects = meets;
  intersects_eq = meets_eq;
  copies = copies;
  Holds = Holds;
  copies-empty = λ c. refl;
  copies-insert = λ b c d t. refl;
  Holds-insert_self = λ b c t. inl (refl, refl);
  Holds-insert = λ b b' c d t h. inr h;
  copies-delete = copies-remove;
  copies-delete_other = copies-remove_other;
  Holds-delete_other = Holds-remove_other;
  count-search = count-found;
  count-search_absent = count-found_absent;
}
