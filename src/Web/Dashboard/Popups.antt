-- ===== src/Web/Dashboard/Popups.antt =====
-- The popups behind an update of the map: those that were open on an old marker of the same title.
use openfsd.Prelude.{
  ◌≡◌, ◌⊎◌, inl, inr, refl, sym, ap, ◌∙◌, Bool, true, false, String, str_eq, str_eq_iff, List, [],
  ◌∷◌, any, arith, Bool-cases, if◌then◌else◌,
}
use openfsd.Web.Dashboard.{Marker, open_callsigns, reopened}
use mathlib.Core.List.Memᴰ
use mathlib.Core.List.{Memᴰ}
use mathlib.Core.Path.{subst}

-- A member of a list that keeps its head under a test.
mem-kept {ℓ} :
    {A : Type ℓ} (b : Bool) (m n : A) (r : List A)
    → Memᴰ m (if b then n ∷ r else r)
    → ((b ≡ true) × (m ≡ n)) ⊎ Memᴰ m r
mem-kept true m n r l = elim (Memᴰ.cases_cons l) [ inl e ↦ inl (refl, e) | inr k ↦ inr k ]
mem-kept false m n r l = inr l

kept-tail {ℓ} :
    {A : Type ℓ} (b : Bool) (m n : A) (r : List A) → Memᴰ m r → Memᴰ m (if b then n ∷ r else r)
kept-tail true m n r l = Memᴰ.tail l
kept-tail false m n r l = l

kept-head {ℓ} :
    {A : Type ℓ} (b : Bool) (m n : A) (r : List A)
    → b ≡ true
    → m ≡ n
    → Memᴰ m (if b then n ∷ r else r)
kept-head true m n r h e = Memᴰ.head e
kept-head false m n r h e = absurd (ground arith)

module _ (is_open : Marker → Bool) where
  -- Some marker of this title has its popup open.
  abbrev pub HasOpen : String → List Marker → Type 0
  HasOpen title ms = (m : Marker) × Memᴰ m ms × (is_open m ≡ true) × (m.title ≡ title)

  HasOpen-tail :
      {title : String} (m : Marker) {ms : List Marker} → HasOpen title ms → HasOpen title (m ∷ ms)
  HasOpen-tail m (w, l, o, t) = (w, Memᴰ.tail l, o, t)

  pub HasOpen-any :
      (title : String) (ms : List Marker)
      → any (str_eq title) (open_callsigns is_open ms) ≡ true
      → HasOpen title ms
  unfolding open_callsigns
  HasOpen-any title [] h = absurd (ground arith)
  HasOpen-any title (m ∷ ms) h = elim (Bool-cases (is_open m)) [
    | inr shut ↦ HasOpen-tail m (HasOpen-any title ms (ground arith))
    | inl opened ↦ elim (Bool-cases (str_eq title m.title)) [
      | inl same ↦ (m, Memᴰ.head refl, opened, sym ((str_eq_iff title m.title).0 same))
      | inr other ↦ HasOpen-tail m (HasOpen-any title ms (ground arith))
    ]
  ]

  pub any-HasOpen :
      (title : String) (ms : List Marker)
      → HasOpen title ms
      → any (str_eq title) (open_callsigns is_open ms) ≡ true
  unfolding open_callsigns
  any-HasOpen title [] (w, l, o, t) = absurd (Memᴰ.not-nil l)
  any-HasOpen title (m ∷ ms) (w, Memᴰ.head e, o, t) =
      let same = (str_eq_iff title m.title).1 (sym (ap (λ n. n.title) (sym e) ∙ t)) in
      let opened : is_open m ≡ true = subst (λ n. is_open n ≡ true) e o in ground arith
  any-HasOpen title (m ∷ ms) (w, Memᴰ.tail l, o, t) =
      let ih = any-HasOpen title ms (w, l, o, t) in ground arith

  pub mem-reopened :
      (titles : List String) (m : Marker) (ms : List Marker)
      → Memᴰ m (reopened is_open titles ms)
      → Memᴰ m ms × (any (str_eq m.title) titles ≡ true)
  unfolding reopened
  mem-reopened titles m [] l = absurd (Memᴰ.not-nil l)
  mem-reopened titles m (n ∷ ms) l =
      elim (mem-kept (any (str_eq n.title) titles) m n (reopened is_open titles ms) l) [
        | inl (h, e) ↦ (Memᴰ.head e, ap (λ k. any (str_eq k.title) titles) e ∙ h)
        | inr k ↦ let (there, h) = mem-reopened titles m ms k in (Memᴰ.tail there, h)
      ]

  pub reopened-mem :
      (titles : List String) (m : Marker) (ms : List Marker)
      → Memᴰ m ms
      → any (str_eq m.title) titles ≡ true
      → Memᴰ m (reopened is_open titles ms)
  unfolding reopened
  reopened-mem titles m [] l h = absurd (Memᴰ.not-nil l)
  reopened-mem titles m (n ∷ ms) (Memᴰ.head e) h =
      kept-head (any (str_eq n.title) titles) m n (reopened is_open titles ms)
        (ap (λ k. any (str_eq k.title) titles) (sym e) ∙ h) e
  reopened-mem titles m (n ∷ ms) (Memᴰ.tail l) h =
      kept-tail (any (str_eq n.title) titles) m n (reopened is_open titles ms)
        (reopened-mem titles m ms l h)
