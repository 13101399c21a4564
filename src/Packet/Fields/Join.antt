-- ===== src/Packet/Fields/Join.antt =====
-- Packets built from fields: what is built is what the field functions read.
use openfsd.Prelude.{
  ℕ, zero, suc, ◌<◌, ◌≡◌, ◌≢◌, refl, sym, ap, ◌∙◌, List, [], ◌∷◌, ◌++◌, arith, length, get_or, All,
  All-append,
}
use openfsd.Prelude.Bytes.{Bytes, crlf, cut_crlf, cut_crlf-append}
use openfsd.Packet.Fields.{colon, count_fields, get_field}
use openfsd.Packet.Fields.Split.{split, length-split, field_or_last, get_field_lem}

-- A field: no colon and no carriage return.
abbrev pub IsField : Bytes → Type 0
IsField f = All (λ c. (c ≢ colon) × (c ≢ 13)) f

-- The line of a list of fields, with its end.
abbrev pub join_line : List Bytes → Bytes
join_line [] = crlf
join_line (f ∷ []) = f ++ crlf
join_line (f ∷ g ∷ fs) = f ++ colon ∷ join_line (g ∷ fs)

-- The same fields with the line's end on the last.
end_last : List Bytes → List Bytes
end_last [] = crlf ∷ []
end_last (f ∷ []) = (f ++ crlf) ∷ []
end_last (f ∷ g ∷ fs) = f ∷ end_last (g ∷ fs)

split-append_colon : (f s : Bytes) → All (λ c. c ≢ colon) f → split (f ++ colon ∷ s) ≡ f ∷ split s
unfolding split
split-append_colon [] s h = refl
split-append_colon (c ∷ f) s (n, h) = ground (arith, split-append_colon f s h)

split_of_no_colon : (f : Bytes) → All (λ c. c ≢ colon) f → split f ≡ f ∷ []
unfolding split
split_of_no_colon [] h = refl
split_of_no_colon (c ∷ f) (n, h) = ground (arith, split_of_no_colon f h)

no_colon_of_IsField : (f : Bytes) → IsField f → All (λ c. c ≢ colon) f
no_colon_of_IsField [] h = tt
no_colon_of_IsField (c ∷ f) (n, h) = (n.0, no_colon_of_IsField f h)

crlf-no_colon : All (λ c. c ≢ colon) crlf
crlf-no_colon = omega arith

split-join_line : (fs : List Bytes) → All IsField fs → split (join_line fs) ≡ end_last fs
unfolding end_last
split-join_line [] h = split_of_no_colon crlf crlf-no_colon
split-join_line (f ∷ []) (p, h) =
    split_of_no_colon (f ++ crlf)
      (All-append (λ c. c ≢ colon) f crlf (no_colon_of_IsField f p) crlf-no_colon)
split-join_line (f ∷ g ∷ fs) (p, h) =
    split-append_colon f (join_line (g ∷ fs)) (no_colon_of_IsField f p)
    ∙ ap (λ r. f ∷ r) (split-join_line (g ∷ fs) h)

cut_crlf_of_IsField : (f : Bytes) → IsField f → cut_crlf f ≡ f
unfolding cut_crlf
cut_crlf_of_IsField [] h = refl
cut_crlf_of_IsField (a ∷ []) h = refl
cut_crlf_of_IsField (a ∷ b ∷ []) h = ground arith
cut_crlf_of_IsField (a ∷ b ∷ c ∷ s) (n, h) = ap (λ r. a ∷ r) (cut_crlf_of_IsField (b ∷ c ∷ s) h)

field-end_last :
    (fs : List Bytes) (i : ℕ)
    → All IsField fs
    → i < length fs
    → cut_crlf (field_or_last (end_last fs) i) ≡ get_or fs i []
unfolding end_last
field-end_last [] i h k = absurd (omega arith)
field-end_last (f ∷ []) zero h k = cut_crlf-append f
field-end_last (f ∷ []) (suc i) h k = absurd (omega arith)
field-end_last (f ∷ g ∷ []) zero (p, h) k = cut_crlf_of_IsField f p
field-end_last (f ∷ g ∷ e ∷ fs) zero (p, h) k = cut_crlf_of_IsField f p
field-end_last (f ∷ g ∷ []) (suc i) (p, h) k = field-end_last (g ∷ []) i h (omega arith)
field-end_last (f ∷ g ∷ e ∷ fs) (suc i) (p, h) k = field-end_last (g ∷ e ∷ fs) i h (omega arith)

-- Of a line built from fields with no colon and no carriage return, `getField` reads each field back.
pub get_field-join_line :
    (fs : List Bytes) (i : ℕ)
    → All IsField fs
    → i < length fs
    → get_field (join_line fs) i ≡ get_or fs i []
get_field-join_line fs i h k =
    get_field_lem (join_line fs) i
    ∙ ap (λ s. cut_crlf (field_or_last s i)) (split-join_line fs h)
    ∙ field-end_last fs i h k

length-end_last : (f : Bytes) (fs : List Bytes) → length (end_last (f ∷ fs)) ≡ length (f ∷ fs)
unfolding end_last
length-end_last f [] = refl
length-end_last f (g ∷ fs) = ap suc (length-end_last g fs)

-- It has as many fields as it was built from.
pub count_fields-join_line :
    (f : Bytes) (fs : List Bytes)
    → All IsField (f ∷ fs)
    → count_fields (join_line (f ∷ fs)) ≡ length (f ∷ fs)
count_fields-join_line f fs h =
    sym (length-split (join_line (f ∷ fs)))
    ∙ ap length (split-join_line (f ∷ fs) h)
    ∙ length-end_last f fs
