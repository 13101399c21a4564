-- ===== src/Fsd/Env.antt =====
-- What the FSD server takes from outside the repository: float64 arithmetic and its functions
-- (package math), strconv.ParseFloat, crypto/md5, and the R-tree of github.com/tidwall/rtree.
use openfsd.Prelude.{ℕ, ◌+◌, ◌≡◌, ◌≢◌, Bool, true, ◌&&◌, List, [], ◌∷◌, Option, ◌==◌, if◌then◌else◌}
use openfsd.Prelude.Bytes.{Bytes}
use openfsd.Prelude.Int.{ℤ}

-- A box is its least latitude and longitude and its greatest. The items of a tree are clients, by
-- the number that stands for the client's address.
pub record Env : Type 1 where
  pub Float : Type 0
  pub eq : Float → Float → Bool
  pub lt : Float → Float → Bool
  pub add : Float → Float → Float
  pub sub : Float → Float → Float
  pub mul : Float → Float → Float
  pub div : Float → Float → Float
  pub sin : Float → Float
  pub cos : Float → Float
  pub sqrt : Float → Float
  pub atan2 : Float → Float → Float
  pub zero : Float
  pub one : Float
  pub two : Float
  pub half : Float
  pub five : Float
  pub earth_radius : Float
  pub deg_to_rad : Float
  pub meters_per_degree_lat : Float
  pub nautical_mile : Float
  pub miles_per_meter : Float
  pub pilot_vis_range : Float
  pub heading_ratio : Float
  pub max_float : Float
  pub of_ℕ : ℕ → Float
  pub to_int : Float → ℤ
  pub parse_float : Bytes → Option Float
  pub md5 : Bytes → Bytes
  pub Tree : Type 0
  pub empty : Tree
  pub insert : Float × Float × Float × Float → ℕ → Tree → Tree
  pub delete : Float × Float × Float × Float → ℕ → Tree → Tree
  pub search : Float × Float × Float × Float → Tree → List ℕ

abbrev pub Box : Env → Type 0
Box env = env.Float × env.Float × env.Float × env.Float

-- `==` on the two corners.
abbrev pub box_eq : (env : Env) → Box env → Box env → Bool
box_eq env (a, b, c, d) (a', b', c', d') =
    env.eq a a' && env.eq b b' && (env.eq c c' && env.eq d d')

-- How often a client is listed.
abbrev pub count : ℕ → List ℕ → ℕ
count c [] = 0
count c (x ∷ xs) = (if x == c then 1 else 0) + count c xs

-- What the server relies on. `==` on floats is symmetric and transitive. A tree holds items: how
-- many of a client (`copies`), and under which boxes (`Holds`). An insertion adds one item; a
-- deletion takes one item of the client away whose box equals the one given, and touches no other
-- client's; a search lists each item once whose box intersects the one given.
pub record Laws (env : Env) : Type 1 where
  pub eq_sym : (a b : env.Float) → env.eq a b ≡ true → env.eq b a ≡ true
  pub eq_trans : (a b c : env.Float) → env.eq a b ≡ true → env.eq b c ≡ true → env.eq a c ≡ true
  pub intersects : Box env → Box env → Bool
  pub intersects_eq : (q b b' : Box env) → box_eq env b b' ≡ true → intersects q b ≡ intersects q b'
  pub copies : env.Tree → ℕ → ℕ
  pub Holds : env.Tree → Box env → ℕ → Type 0
  pub copies-empty : (c : ℕ) → copies env.empty c ≡ 0
  pub copies-insert :
      (b : Box env) (c d : ℕ) (t : env.Tree)
      → copies (env.insert b c t) d ≡ (if c == d then 1 else 0) + copies t d
  pub Holds-insert_self : (b : Box env) (c : ℕ) (t : env.Tree) → Holds (env.insert b c t) b c
  pub Holds-insert :
      (b b' : Box env) (c d : ℕ) (t : env.Tree) → Holds t b' d → Holds (env.insert b c t) b' d
  pub copies-delete :
      (b b' : Box env) (c : ℕ) (t : env.Tree)
      → Holds t b' c
      → box_eq env b b' ≡ true
      → copies (env.delete b c t) c + 1 ≡ copies t c
  pub copies-delete_other :
      (b : Box env) (c d : ℕ) (t : env.Tree) → c ≢ d → copies (env.delete b c t) d ≡ copies t d
  pub Holds-delete_other :
      (b b' : Box env) (c d : ℕ) (t : env.Tree)
      → c ≢ d
      → Holds t b' d
      → Holds (env.delete b c t) b' d
  pub count-search :
      (q b : Box env) (c : ℕ) (t : env.Tree)
      → copies t c ≡ 1
      → Holds t b c
      → count c (env.search q t) ≡ (if intersects q b then 1 else 0)
  pub count-search_absent :
      (q : Box env) (c : ℕ) (t : env.Tree) → copies t c ≡ 0 → count c (env.search q t) ≡ 0
