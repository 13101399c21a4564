-- ===== src/Fsd/Server/Distinct.antt =====
-- fsd/postoffice.go: the map has each callsign once, in every state that the server reaches.
use openfsd.Prelude.{
  ℕ, ◌≡◌, ◌≢◌, refl, sym, ap, Bool, true, false, List, [], ◌∷◌, Option, none, some, arith,
  if◌then◌else◌, Bool-cases, inl, inr,
}
use mathlib.Core.Path.{subst}
use openfsd.Prelude.Bytes.{Bytes, bytes_eq, bytes_eq_iff, bytes_eq_refl}
use openfsd.Fsd.Env.{Env, Laws, count}
use openfsd.Fsd.PostOffice.{
  Error, callsign_in_use, box_of, World, lookup, without, register, release, modify,
}
use openfsd.Fsd.PostOffice.Invariant.{lookup-without}
use openfsd.Fsd.Server.Keeps.{cancel-Keeps}
use openfsd.Fsd.Server.Sent.{all-Keeps}
use openfsd.Fsd.Server.Packets.{on_packet-Keeps}
use openfsd.Fsd.Server.Steps.{Step, arrives, sends, tells, kicks, leaves, Reachable, start, next}

abbrev pub IsDistinct : List (Bytes × ℕ) → Type 0
IsDistinct [] = Unit {0}
IsDistinct ((k, c) ∷ m) = (lookup k m ≡ none) × IsDistinct m

abbrev pub ids : List (Bytes × ℕ) → List ℕ
ids [] = []
ids ((k, c) ∷ m) = c ∷ ids m

if-IsDistinct :
    (b : Bool) (k : Bytes) (c : ℕ) (m : List (Bytes × ℕ))
    → lookup k m ≡ none
    → IsDistinct m
    → IsDistinct (if b then m else (k, c) ∷ m)
if-IsDistinct true k c m h d = d
if-IsDistinct false k c m h d = (h, d)

IsDistinct-without : (k : Bytes) (m : List (Bytes × ℕ)) → IsDistinct m → IsDistinct (without k m)
unfolding without
IsDistinct-without k [] d = d
IsDistinct-without k ((j, c) ∷ m) (h, d) =
    if-IsDistinct (bytes_eq j k) j c (without k m) (ground (arith, lookup-without k j m, h))
      (IsDistinct-without k m d)

-- A key behind the head is not the head's.
lookup-tail :
    (k j : Bytes) (d c : ℕ) (m : List (Bytes × ℕ))
    → lookup j m ≡ none
    → lookup k m ≡ some c
    → lookup k ((j, d) ∷ m) ≡ some c
unfolding lookup
lookup-tail k j d c m h e = ground (arith, bytes_eq_iff j k, h, e)

count-ids_absent :
    (c : ℕ) (m : List (Bytes × ℕ))
    → IsDistinct m
    → ((k : Bytes) → lookup k m ≢ some c)
    → count c (ids m) ≡ 0
count-ids_absent c [] d gone = refl
count-ids_absent c ((j, i) ∷ m) (h, d) gone =
    let rest = count-ids_absent c m d (λ k e. gone k (lookup-tail k j i c m h e)) in
    let other : i ≢ c = λ e. gone j (unfold lookup in ground (arith, bytes_eq_refl j)) in
    ground (arith, rest, other)

-- A client under exactly one callsign is listed once.
pub count-ids :
    (k : Bytes) (c : ℕ) (m : List (Bytes × ℕ))
    → IsDistinct m
    → lookup k m ≡ some c
    → ((j : Bytes) → lookup j m ≡ some c → j ≡ k)
    → count c (ids m) ≡ 1
count-ids k c [] d found only = absurd (unfold lookup in ground (arith, found))
count-ids k c ((j, i) ∷ m) (h, d) found only = elim (Bool-cases (bytes_eq j k)) [
  | inl here ↦
      let head : i ≡ c = unfold lookup in ground (arith, found) in
      let alone : (n : Bytes) → lookup n m ≢ some c = λ n e. ground (
        arith,
        ap (λ q. lookup q m) (only n (lookup-tail n j i c m h e)),
        ap (λ q. lookup q m) ((bytes_eq_iff j k).0 here),
        h,
        e,
      ) in
      ground (arith, count-ids_absent c m d alone, head)
  | inr later ↦
      let behind : lookup k m ≡ some c = unfold lookup in ground (arith, found) in
      let other : i ≢ c = λ e.
        ground
          (arith, only j (unfold lookup in ground (arith, bytes_eq_refl j)), bytes_eq_iff j k) in
      let rest = count-ids k c m d behind (λ n e. only n (lookup-tail n j i c m h e)) in
      ground (arith, rest, other)
]

module _ (env : Env) (laws : Laws env) where
  register-IsDistinct :
      (id : ℕ) (w : World env)
      → IsDistinct w.client_map
      → IsDistinct (register env id w).0.client_map
  unfolding register
  register-IsDistinct id w d = go (lookup (w.clients id).callsign w.client_map) refl
    where
      go :
          (o : Option ℕ)
          → lookup (w.clients id).callsign w.client_map ≡ o
          → IsDistinct
              (elim o as (λ x. World env × Option Error) [
                | some other ↦ (w, some callsign_in_use)
                | none ↦ (
                  record w {
                    client_map = ((w.clients id).callsign, id) ∷ w.client_map;
                    tree = env.insert (box_of env (w.clients id)) id w.tree;
                  },
                  none,
                )
              ]).0.client_map
      go (some other) e = d
      go none e = (e, d)

  Step-IsDistinct :
      (w w' : World env) → IsDistinct w.client_map → Step env laws w w' → IsDistinct w'.client_map
  Step-IsDistinct w _ d (arrives id k fresh real) =
      register-IsDistinct id (modify env id (λ c. k) w) (unfold modify in d)
  Step-IsDistinct w _ d (sends now id packet reg real) =
      subst IsDistinct (sym (on_packet-Keeps env laws now id packet w real).listed) d
  Step-IsDistinct w _ d (tells id packet reg) =
      subst IsDistinct (sym (all-Keeps env laws id packet w).listed) d
  Step-IsDistinct w _ d (kicks id reg) =
      subst IsDistinct (sym (cancel-Keeps env laws id id w (inl refl)).listed) d
  Step-IsDistinct w _ d (leaves id reg) =
      unfold release in IsDistinct-without (w.clients id).callsign w.client_map d

  pub Reachable-IsDistinct : (w : World env) → Reachable env laws w → IsDistinct w.client_map
  Reachable-IsDistinct w (start no_map no_tree) = subst IsDistinct (sym no_map) tt
  Reachable-IsDistinct w (next {w = v} r s) = Step-IsDistinct v w (Reachable-IsDistinct v r) s
