-- ===== src/Web/ConfigEditor/Collect.antt =====
-- What is saved against what was loaded.
use mathlib.Core.Option.{some-injective}
use mathlib.Core.List.{append-nil}
use mathlib.Core.Path.{subst}
use openfsd.Prelude.{
  ℕ, ◌≡◌, ◌≢◌, inl, inr, refl, ap, ◌∙◌, Bool, true, false, String, str_eq, List, [], ◌∷◌, ◌++◌,
  none, some, arith, All, Bool-cases,
}
use openfsd.Prelude.Bytes.{Bytes}
use openfsd.Web.ConfigEditor.{
  Label, key_labels, lookup, label_of, input_with, Input, Form, Pair, before_quote, without_ends,
  input_of, render, load_config, value_of, collect_inputs, collect_new, save_config,
}

-- A code unit that the editor shows as it is: no quote and no ampersand, which are part of the HTML,
-- no line end, which a text input drops, and no NUL, which HTML replaces.
abbrev pub IsPlainCode : ℕ → Type 0
IsPlainCode c = (c ≢ 34) × (c ≢ 38) × (c ≢ 10) × (c ≢ 13) × (c ≢ 0)

-- A pair that the editor shows as it is: its key has a label, and its value is plain.
abbrev pub IsShown : Pair → Type 0
IsShown kv = ((l : Label) × (label_of kv.key ≡ some l)) × All IsPlainCode kv.value

before_quote_of_plain : (s : Bytes) → All IsPlainCode s → before_quote s ≡ s
unfolding before_quote
before_quote_of_plain [] h = refl
before_quote_of_plain (c ∷ s) (p, h) = ground (arith, before_quote_of_plain s h)

without_ends_of_plain : (s : Bytes) → All IsPlainCode s → without_ends s ≡ s
unfolding without_ends
without_ends_of_plain [] h = refl
without_ends_of_plain (c ∷ s) (p, h) = ground (arith, without_ends_of_plain s h)

lookup-All {ℓ κ} :
    {A : Type ℓ} (P : A → Type κ) (k : String) (m : List (String × A)) (v : A)
    → All (λ e. P e.1) m
    → lookup k m ≡ some v
    → P v
unfolding lookup
lookup-All P k [] v h e = absurd (ground arith)
lookup-All P k ((j, w) ∷ m) v (p, h) e = elim (Bool-cases (str_eq j k)) [
  | inl here ↦ subst P (some-injective w v (rw here at e)) p
  | inr later ↦ lookup-All P k m v h (rw later at e)
]

abbrev pub IsText : Label → Type 0
IsText l = l.type ≡ "text"

-- Every label's type is text.
key_labels-IsText : All (λ e. IsText e.1) key_labels
key_labels-IsText = (refl, (refl, (refl, (refl, (refl, tt)))))

pub label-IsText : (k : String) (l : Label) → label_of k ≡ some l → IsText l
unfolding label_of
label-IsText k l h = lookup-All IsText k key_labels l key_labels-IsText h

pub value_of_label :
    (k : String) (l : Label) (v : Bytes) (b : Bool) → label_of k ≡ some l → value_of k v b ≡ some v
unfolding value_of
value_of_label k l v b h = rw (h, value_of, label-IsText k l h) refl

save_of_inputs :
    (inputs : List Input) (pairs : List Pair)
    → collect_inputs inputs ≡ some pairs
    → save_config (record { inputs = inputs; new_inputs = [] }) ≡ some pairs
unfolding save_config collect_new
save_of_inputs inputs pairs saved = rw (saved, save_config) (ap some (append-nil pairs))

module _ (unescape : Bytes → Bytes) where
  -- The browser's reading of HTML text leaves one with no ampersand, carriage return or NUL as it is.
  abbrev pub KeepsPlain : Type 0
  KeepsPlain = (s : Bytes) → All (λ c. (c ≢ 38) × (c ≢ 13) × (c ≢ 0)) s → unescape s ≡ s

  no_amp : (s : Bytes) → All IsPlainCode s → All (λ c. (c ≢ 38) × (c ≢ 13) × (c ≢ 0)) s
  no_amp [] h = tt
  no_amp (c ∷ s) ((q, a, n, r, z), h) = ((a, r, z), no_amp s h)

  input_of_shown :
      (kv : Pair) (l : Label)
      → label_of kv.key ≡ some l
      → input_of unescape kv ≡ some (input_with unescape kv l)
  unfolding input_of
  input_of_shown kv l labelled = rw labelled

  collect-input_with :
      (kv : Pair) (l : Label)
      → KeepsPlain
      → label_of kv.key ≡ some l
      → All IsPlainCode kv.value
      → value_of kv.key (input_with unescape kv l).value false ≡ some kv.value
  collect-input_with kv l keeps labelled plain =
      value_of_label kv.key l (input_with unescape kv l).value false labelled
      ∙ ap some (
          rw (label-IsText kv.key l labelled) (
            ap (λ s. without_ends (unescape s)) (before_quote_of_plain kv.value plain)
            ∙ ap without_ends (keeps kv.value (no_amp kv.value plain))
            ∙ without_ends_of_plain kv.value plain))

  render-collect :
      (pairs : List Pair)
      → KeepsPlain
      → All IsShown pairs
      → ((render unescape pairs).1 ≡ true) × (collect_inputs (render unescape pairs).0 ≡ some pairs)
  unfolding render collect_inputs
  render-collect [] keeps h = (refl, refl)
  render-collect (kv ∷ rest) keeps (((l, labelled), plain), h) =
      let (all_read, ih) = render-collect rest keeps h in
      let made = input_of_shown kv l labelled in
      let saved = collect-input_with kv l keeps labelled plain in (ground arith, ground arith)

  render-known :
      (known : List Pair) (kv : Pair) (rest : List Pair)
      → KeepsPlain
      → All IsShown known
      → label_of kv.key ≡ none
      → ((render unescape (known ++ kv ∷ rest)).1 ≡ false)
        × (collect_inputs (render unescape (known ++ kv ∷ rest)).0 ≡ some known)
  unfolding render collect_inputs input_of
  render-known [] kv rest keeps h missing = (ground arith, ground arith)
  render-known (k ∷ known) kv rest keeps (((l, labelled), plain), h) missing =
      let (stopped, ih) = render-known known kv rest keeps h missing in
      let saved = collect-input_with k l keeps labelled plain in (ground arith, ground arith)

  -- The form that is loaded from pairs whose keys have labels, and whose values hold no quote, no
  -- ampersand, no line end and no NUL, saves these pairs: loading and saving again changes no
  -- setting. The browser reads HTML text with no ampersand, carriage return or NUL as it is.
  pub save-load_config :
      (pairs : List Pair) (form : Form)
      → KeepsPlain
      → All IsShown pairs
      → ((load_config unescape pairs form).1 ≡ true)
        × (save_config (load_config unescape pairs form).0 ≡ some pairs)
  unfolding load_config
  save-load_config pairs form keeps h =
      let (all_read, saved) = render-collect pairs keeps h in
      (all_read, save_of_inputs (render unescape pairs).0 pairs saved)

  -- A pair whose key has no label, behind pairs that the editor shows as they are, ends the
  -- loading with an exception: the inputs before it are in the form and are all that it saves, and
  -- neither it nor a later pair is. The browser reads HTML text with no ampersand, carriage return or NUL as it is.
  pub load_config_unknown :
      (known : List Pair) (kv : Pair) (rest : List Pair) (form : Form)
      → KeepsPlain
      → All IsShown known
      → label_of kv.key ≡ none
      → ((load_config unescape (known ++ kv ∷ rest) form).1 ≡ false)
        × (save_config (load_config unescape (known ++ kv ∷ rest) form).0 ≡ some known)
  load_config_unknown known kv rest form keeps h missing =
      let (stopped, saved) = render-known known kv rest keeps h missing in
      unfold load_config in
      (stopped, save_of_inputs (render unescape (known ++ kv ∷ rest)).0 known saved)
