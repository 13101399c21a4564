-- ===== src/Web/ConfigEditor.antt =====
-- web/static/js/openfsd/configeditor.js: the form of the server's configuration.
pub mod Collect
pub mod Adding
pub mod NewToken
use openfsd.Prelude.{
  ℕ, Bool, true, false, ◌&&◌, ◌||◌, not, String, str_eq, List, [], ◌∷◌, ◌++◌, Option, none, some,
  ◌==◌, all, if◌then◌else◌,
}
use openfsd.Prelude.Bytes.{Bytes}
use mathlib.Core.Option

-- An entry of `keyLabels`.
pub record Label : Type 0 where
  pub name : String
  pub description : String
  pub type : String
  pub placeholder : String

abbrev pub key_labels : List (String × Label)
key_labels =
    (
      "WELCOME_MESSAGE",
      record {
        name = "Welcome Message";
        description = "Welcome message sent to FSD clients after they connect";
        type = "text";
        placeholder = "Welcome to my FSD server!";
      },
    )
    ∷ (
      "FSD_SERVER_HOSTNAME",
      record {
        name = "FSD Server Hostname";
        description = "Server hostname advertised to clients";
        type = "text";
        placeholder = "myfsdserver.com";
      },
    )
    ∷ (
      "FSD_SERVER_IDENT",
      record {
        name = "FSD Server Ident";
        description = "Server ident advertised to clients";
        type = "text";
        placeholder = "MY-FSD-SERVER";
      },
    )
    ∷ (
      "FSD_SERVER_LOCATION",
      record {
        name = "FSD Server Location";
        description = "Geographical server location advertised to clients";
        type = "text";
        placeholder = "East US";
      },
    )
    ∷ (
      "API_SERVER_BASE_URL",
      record {
        name = "API Server Base URL";
        description = "API server base URL advertised to clients";
        type = "text";
        placeholder = "https://example.com";
      },
    )
    ∷ []

-- A property of an object; none is undefined.
unfoldable pub lookup {ℓ} : {A : Type ℓ} → String → List (String × A) → Option A
lookup key [] = none
lookup key ((k, v) ∷ m) = if str_eq k key then some v else lookup key m

-- `keyLabels[key]`.
unfoldable pub label_of : String → Option Label
unfolding lookup
label_of key = lookup key key_labels

-- A text input of the form: its data-key, type, value and the texts round it.
pub record Input : Type 0 where
  pub key : String
  pub type : String
  pub value : Bytes
  pub checked : Bool
  pub label : String
  pub description : String

-- A block for a new key: the selected key, and the value's input with its type. The description is
-- that of the block selected last, in the first block's text: every block has the same id for it.
pub record NewInput : Type 0 where
  pub selected : String
  pub type : String
  pub value : Bytes
  pub checked : Bool

pub record Form : Type 0 where
  pub inputs : List Input
  pub new_inputs : List NewInput

-- A key-value pair of the API.
pub record Pair : Type 0 where
  pub key : String
  pub value : Bytes

-- `text || other`.
abbrev pub or_text : String → String → String
or_text s other = if str_eq s "" then other else s

-- A template puts a value between quotes into HTML; the browser reads it up to the next quote, and
-- `unescape` is its reading of character references (`&...;`).
unfoldable pub before_quote : Bytes → Bytes
before_quote [] = []
before_quote (c ∷ s) = if c == 34 then [] else c ∷ before_quote s

-- The browser's value of an input: a text input's has no line ends.
unfoldable pub without_ends : Bytes → Bytes
without_ends [] = []
without_ends (c ∷ s) = let rest = without_ends s in if c == 10 || c == 13 then rest else c ∷ rest

abbrev pub sanitized : String → Bytes → Bytes
sanitized type value = if str_eq type "text" then without_ends value else value

module _ (unescape : Bytes → Bytes) where
  -- The block that `loadConfig` builds for a pair.
  abbrev pub input_with : Pair → Label → Input
  input_with kv label = record {
    key = kv.key;
    type = label.type;
    value = sanitized label.type (unescape (before_quote kv.value));
    checked = false;
    label = or_text label.name kv.key;
    description = or_text label.description kv.key;
  }

  -- none is the TypeError of a key with no label.
  unfoldable pub input_of : Pair → Option Input
  input_of kv = Option.map (input_with kv) (label_of kv.key)

  -- The loop of `loadConfig`: the inputs that it has appended, and whether it came to its end.
  unfoldable pub render : List Pair → List Input × Bool
  render [] = ([], true)
  render (kv ∷ rest) =
      let more = render rest in
      elim (input_of kv) [ none ↦ ([], false) | some i ↦ (i ∷ more.0, more.1) ]

  -- `loadConfig` behind a good answer clears the form, new keys included.
  unfoldable pub load_config : List Pair → Form → Form × Bool
  load_config pairs form = (record { inputs = (render pairs).0; new_inputs = [] }, (render pairs).1)

abbrev pub text_of_bool : Bool → Bytes
text_of_bool true = 116 ∷ 114 ∷ 117 ∷ 101 ∷ []
text_of_bool false = 102 ∷ 97 ∷ 108 ∷ 115 ∷ 101 ∷ []

-- `keyLabels[key].type === 'checkbox' ? checked.toString() : value`; none is the TypeError.
unfoldable pub value_of : String → Bytes → Bool → Option Bytes
value_of key value checked =
    Option.map (λ label. if str_eq label.type "checkbox" then text_of_bool checked else value)
      (label_of key)

abbrev pub pair_of : String → Bytes → Pair
pair_of k v = record { key = k; value = v }

abbrev pub cons_value : String → Option Bytes → Option (List Pair) → Option (List Pair)
cons_value k (some v) (some rest) = some (pair_of k v ∷ rest)
cons_value k _ _ = none

-- The first loop of the save handler.
unfoldable pub collect_inputs : List Input → Option (List Pair)
collect_inputs [] = some []
collect_inputs (i ∷ rest) =
    cons_value i.key (value_of i.key i.value i.checked) (collect_inputs rest)

-- The second loop: blocks with no key selected are passed over. The select offers the labelled keys
-- and the empty text, so that trimming changes nothing.
unfoldable pub collect_new : List NewInput → Option (List Pair)
collect_new [] = some []
collect_new (i ∷ rest) =
    let more = collect_new rest in
    if str_eq i.selected ""
    then more
    else cons_value i.selected (value_of i.selected i.value i.checked) more

-- The request of the save handler; none where an exception ends it before the request.
unfoldable pub save_config : Form → Option (List Pair)
save_config form = elim (collect_inputs form.inputs) [
  | none ↦ none
  | some old ↦ Option.map (λ new. old ++ new) (collect_new form.new_inputs)
]

-- The click on `add-config`: a block with no key selected, at the form's end.
unfoldable pub add_config : Form → Form
add_config form = record form {
  new_inputs =
      form.new_inputs ++ record { selected = ""; type = "text"; value = []; checked = false } ∷ [];
}

-- The value's input behind the choice of a key with a label.
abbrev pub retyped : Label → NewInput → NewInput
retyped label i =
    if str_eq label.type "checkbox"
    then record i { type = "checkbox"; value = text_of_bool true }
    else record i { type = label.type; value = [] }

-- The listener of a block's select, which the browser has set to the key.
unfoldable pub on_select : String → NewInput → NewInput
on_select key i = elim (label_of key) [
  | none ↦ record i { selected = key }
  | some label ↦ retyped label (record i { selected = key })
]

-- The value that a block's input has behind the user's typing.
abbrev pub typed_in : Bytes → NewInput → NewInput
typed_in value i = record i { value = value }

-- A change of the last block.
abbrev pub at_last : (NewInput → NewInput) → List NewInput → List NewInput
at_last f [] = []
at_last f (i ∷ []) = f i ∷ []
at_last f (i ∷ j ∷ rest) = i ∷ at_last f (j ∷ rest)

abbrev pub change_last : (NewInput → NewInput) → Form → Form
change_last f form = record form { new_inputs = at_last f form.new_inputs }
