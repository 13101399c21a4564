-- ===== src/Web/ConfigEditor/Adding.antt =====
-- web/static/js/openfsd/configeditor.js: what a new block adds to what is saved.
use openfsd.Prelude.{
  ◌≡◌, ◌≢◌, refl, sym, ap, ◌∙◌, Bool, true, false, String, str_eq, str_eq_iff, List, [], ◌∷◌, ◌++◌,
  Option, none, some, arith, if◌then◌else◌,
}
use mathlib.Core.Option
use mathlib.Core.List.{append_assoc}
use openfsd.Prelude.Bytes.{Bytes}
use openfsd.Web.ConfigEditor.{
  Label, Form, NewInput, Pair, pair_of, label_of, value_of, collect_inputs, collect_new,
  save_config, add_config, on_select, typed_in, at_last, change_last, cons_value,
}
use openfsd.Web.ConfigEditor.Collect.{value_of_label, label-IsText}

-- The block of the key and the value, as it is read back.
abbrev block : String → Bytes → NewInput
block key value =
    typed_in value
      (on_select key (record { selected = ""; type = "text"; value = []; checked = false }))

at_last-append :
    (f : NewInput → NewInput) (is : List NewInput) (i : NewInput)
    → at_last f (is ++ i ∷ []) ≡ is ++ f i ∷ []
at_last-append f [] i = refl
at_last-append f (j ∷ []) i = refl
at_last-append f (j ∷ k ∷ is) i = ap (λ r. j ∷ r) (at_last-append f (k ∷ is) i)

-- One more pair behind a result.
abbrev more : Pair → Option (List Pair) → Option (List Pair)
more p o = Option.map (λ ps. ps ++ p ∷ []) o

cons_value-more :
    (k : String) (v : Option Bytes) (o : Option (List Pair)) (p : Pair)
    → cons_value k v (more p o) ≡ more p (cons_value k v o)
cons_value-more k none none p = refl
cons_value-more k none (some ps) p = refl
cons_value-more k (some v) none p = refl
cons_value-more k (some v) (some ps) p = refl

skip-more :
    (b : Bool) (o q : Option (List Pair)) (p : Pair)
    → (if b then more p o else more p q) ≡ more p (if b then o else q)
skip-more true o q p = refl
skip-more false o q p = refl

collect_new-append :
    (is : List NewInput) (i : NewInput) (p : Pair)
    → collect_new (i ∷ []) ≡ some (p ∷ [])
    → collect_new (is ++ i ∷ []) ≡ more p (collect_new is)
unfolding collect_new
collect_new-append [] i p k = k
collect_new-append (j ∷ is) i p k =
    let v = value_of j.selected j.value j.checked in
    ap (λ r. if str_eq j.selected "" then r else cons_value j.selected v r)
      (collect_new-append is i p k)
    ∙ ap (λ r. if str_eq j.selected "" then more p (collect_new is) else r)
        (cons_value-more j.selected v (collect_new is) p)
    ∙ skip-more (str_eq j.selected "") (collect_new is) (cons_value j.selected v (collect_new is)) p

collect_block :
    (key : String) (value : Bytes) (l : Label)
    → label_of key ≡ some l
    → key ≢ ""
    → collect_new (block key value ∷ []) ≡ some (pair_of key value ∷ [])
unfolding collect_new on_select
collect_block key value l labelled named =
    let chosen = value_of_label key l value in
    ground (arith, str_eq_iff key "", label-IsText key l labelled, chosen false labelled)

save-more :
    (old : Option (List Pair)) (new : Option (List Pair)) (p : Pair)
    → (elim old [ none ↦ none | some o ↦ Option.map (λ n. o ++ n) (more p new) ])
      ≡ more p (elim old [ none ↦ none | some o ↦ Option.map (λ n. o ++ n) new ])
save-more none new p = refl
save-more (some o) none p = refl
save-more (some o) (some n) p = ap some (sym (append_assoc o n (p ∷ [])))

-- A new block, in which a key with a label is selected and a value typed, adds this one pair behind
-- all that the form saved before; where the form could not be saved before, it still cannot be.
pub save-add_config :
    (form : Form) (key : String) (value : Bytes) (l : Label)
    → label_of key ≡ some l
    → key ≢ ""
    → save_config (change_last (typed_in value) (change_last (on_select key) (add_config form)))
      ≡ Option.map (λ pairs. pairs ++ pair_of key value ∷ []) (save_config form)
unfolding save_config add_config
save-add_config form key value l labelled named =
    let fresh : NewInput = record { selected = ""; type = "text"; value = []; checked = false } in
    ap (λ is. save_config (record form { new_inputs = is }))
      (ap (at_last (typed_in value)) (at_last-append (on_select key) form.new_inputs fresh)
        ∙ at_last-append (typed_in value) form.new_inputs (on_select key fresh))
    ∙ ap
        (λ new. elim (collect_inputs form.inputs) [
          | none ↦ none
          | some o ↦ Option.map (λ n. o ++ n) new
        ])
        (collect_new-append form.new_inputs (block key value) (pair_of key value)
          (collect_block key value l labelled named))
    ∙ save-more (collect_inputs form.inputs) (collect_new form.new_inputs) (pair_of key value)
