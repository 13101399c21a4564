-- ===== src/Packet/Fields/Split.antt =====
-- The field functions against the list of fields that a packet stands for.
use openfsd.Prelude.{
  ℕ, zero, suc, ◌≤◌, ◌≢◌, ◌++◌, All, ◌≡◌, refl, ◌∙◌, sym, List, [], ◌∷◌, none, some, Bool, true,
  false, arith, drop, length, ◌==◌, if◌then◌else◌, Bool-cases, inl, inr,
}
use openfsd.Prelude.Bytes.{Bytes, cut_crlf}
use openfsd.Packet.Fields.{
  colon, count_fields, rebase_to_next_field, rebase_times, cut_at, get_field, index_byte,
}

-- A character put before the first field.
push_front : ℕ → List Bytes → List Bytes
push_front c [] = (c ∷ []) ∷ []
push_front c (f ∷ fs) = (c ∷ f) ∷ fs

-- The specification: the fields of a packet, which are never none.
unfoldable pub split : Bytes → List Bytes
unfolding push_front
split [] = [] ∷ []
split (c ∷ s) = if c == colon then [] ∷ split s else push_front c (split s)

-- The first field, and the packet behind its colon.
rest_of : Bytes → Bytes
rest_of [] = []
rest_of (c ∷ s) = if c == colon then s else rest_of s

has_colon : Bytes → Bool
has_colon [] = false
has_colon (c ∷ s) = if c == colon then true else has_colon s

index_byte-has_colon : (s : Bytes) → has_colon s ≡ false → index_byte colon s ≡ none
unfolding index_byte has_colon
index_byte-has_colon [] h = refl
index_byte-has_colon (c ∷ s) h = ground (arith, index_byte-has_colon s)

drop-index_byte :
    (s : Bytes)
    → has_colon s ≡ true
    → (i : ℕ) × (index_byte colon s ≡ some i) × (drop (suc i) s ≡ rest_of s)
unfolding index_byte has_colon rest_of
drop-index_byte [] h = absurd (ground arith)
drop-index_byte (c ∷ s) h = elim (Bool-cases (c == colon)) [
  | inl here ↦ rw here (0, refl, refl)
  | inr later ↦
      let (i, found, cut) = drop-index_byte s (rw later at h) in rw later (suc i, rw found, cut)
]

rebase-has_colon : (s : Bytes) → has_colon s ≡ true → rebase_to_next_field s ≡ rest_of s
rebase-has_colon s h =
    let (i, found, cut) = drop-index_byte s h in
    unfold rebase_to_next_field in rw (found, rebase_to_next_field) (ground (arith, cut))

rebase-not_has_colon : (s : Bytes) → has_colon s ≡ false → rebase_to_next_field s ≡ s
unfolding rebase_to_next_field
rebase-not_has_colon s h = rw (index_byte-has_colon s h, rebase_to_next_field)

has_colon-append : (f s : Bytes) → has_colon (f ++ colon ∷ s) ≡ true
unfolding has_colon
has_colon-append [] s = refl
has_colon-append (c ∷ f) s = ground (arith, has_colon-append f s)

rest_of-append : (f s : Bytes) → All (λ c. c ≢ colon) f → rest_of (f ++ colon ∷ s) ≡ s
unfolding rest_of
rest_of-append [] s h = refl
rest_of-append (c ∷ f) s (n, h) = ground (arith, rest_of-append f s h)

-- The packet behind a first field.
pub rebase-append :
    (f s : Bytes) → All (λ c. c ≢ colon) f → rebase_to_next_field (f ++ colon ∷ s) ≡ s
rebase-append f s h =
    rebase-has_colon (f ++ colon ∷ s) (has_colon-append f s) ∙ rest_of-append f s h

split-has_colon : (s : Bytes) → has_colon s ≡ true → split s ≡ cut_at colon s ∷ split (rest_of s)
unfolding split has_colon cut_at rest_of
split-has_colon [] h = absurd (ground arith)
split-has_colon (c ∷ s) h = ground (arith, split-has_colon s)

split-not_has_colon : (s : Bytes) → has_colon s ≡ false → split s ≡ cut_at colon s ∷ []
unfolding split has_colon cut_at
split-not_has_colon [] h = refl
split-not_has_colon (c ∷ s) h = ground (arith, split-not_has_colon s)

length-push_front : (c : ℕ) (fs : List Bytes) → 1 ≤ length fs → length (push_front c fs) ≡ length fs
unfolding push_front
length-push_front c [] h = absurd (omega arith)
length-push_front c (f ∷ fs) h = refl

count_fields_pos : (s : Bytes) → 1 ≤ count_fields s
unfolding count_fields
count_fields_pos s = omega arith

-- A packet has as many fields as `countFields` says.
pub length-split : (s : Bytes) → length (split s) ≡ count_fields s
unfolding split count_fields
length-split [] = refl
length-split (c ∷ s) =
    ground (arith, length-split s, length-push_front c (split s) (omega (arith, length-split s)))

-- Field `i`, or the last field where there are fewer.
abbrev pub field_or_last : List Bytes → ℕ → Bytes
field_or_last [] i = []
field_or_last (f ∷ []) i = f
field_or_last (f ∷ g ∷ fs) zero = f
field_or_last (f ∷ g ∷ fs) (suc i) = field_or_last (g ∷ fs) i

field_or_last-zero : (f : Bytes) (fs : List Bytes) → field_or_last (f ∷ fs) zero ≡ f
field_or_last-zero f [] = refl
field_or_last-zero f (g ∷ fs) = refl

field_or_last-suc :
    (f : Bytes) (fs : List Bytes) (i : ℕ)
    → 1 ≤ length fs
    → field_or_last (f ∷ fs) (suc i) ≡ field_or_last fs i
field_or_last-suc f [] i h = absurd (omega arith)
field_or_last-suc f (g ∷ fs) i h = refl

cut_at-rebase_times :
    (i : ℕ) (s : Bytes) → cut_at colon (rebase_times i s) ≡ field_or_last (split s) i
unfolding rebase_times
cut_at-rebase_times zero s = elim (Bool-cases (has_colon s)) [
  | inl yes_colon ↦ rw (split-has_colon s yes_colon) (sym (field_or_last-zero _ _))
  | inr no_colon ↦ rw (split-not_has_colon s no_colon)
]
cut_at-rebase_times (suc i) s = elim (Bool-cases (has_colon s)) [
  | inl yes_colon ↦
      rw
        (
          rebase-has_colon s yes_colon,
          cut_at-rebase_times i (rest_of s),
          split-has_colon s yes_colon,
        )
        (sym (
          field_or_last-suc _ (split (rest_of s)) i
            (omega (arith, length-split (rest_of s), count_fields_pos (rest_of s)))))
  | inr no_colon ↦
      rw (rebase-not_has_colon s no_colon)
        (cut_at-rebase_times i s ∙ rw (split-not_has_colon s no_colon))
]

-- `getField(packet, i)` is field i of the packet, and the last field of a packet that has fewer,
-- each without a line end behind it.
pub get_field_lem :
    (packet : Bytes) (i : ℕ) → get_field packet i ≡ cut_crlf (field_or_last (split packet) i)
unfolding get_field
get_field_lem packet i = rw (cut_at-rebase_times i packet)
