-- ===== src/Web/Messages.antt =====
-- web/static/js/openfsd/configeditor.js, usereditor.js, dashboard.js: what the pages tell the user
-- behind the answer to a request, and what they send in the first place.
use openfsd.Prelude.{Bool, true, false, String, List, [], ◌∷◌, ◌++◌, Option, none, some}
use openfsd.Prelude.Bytes.{Bytes, codes}
use openfsd.Prelude.Int.{ℤ}
use openfsd.Prelude.Decimal.{print_int}
use openfsd.Web.ConfigEditor.{Form, Pair, load_config}

-- What a request comes to: an answer whose `err` is a text that is not empty, an answer with what was
-- asked for, or a failed request with the `err` of its answer, where it has one.
pub data Answer {ℓ} (A : Type ℓ) : Type ℓ where
  refused : Bytes → Answer A
  given : A → Answer A
  failed : Option Bytes → Answer A

-- `xhr.responseJSON && xhr.responseJSON.err ? ... : 'An error occurred'`.
abbrev pub err_msg : Option Bytes → Bytes
err_msg none = codes "An error occurred"
err_msg (some []) = codes "An error occurred"
err_msg (some (c ∷ s)) = c ∷ s

-- `'Error: ' + text`.
abbrev pub error_text : Bytes → Bytes
error_text s = codes "Error: " ++ s

-- The text that every handler shows of an answer that is no good.
unfoldable pub complaint {ℓ} : {A : Type ℓ} → Answer A → Option Bytes
complaint (refused e) = some (error_text e)
complaint (given a) = none
complaint (failed e) = some (error_text (err_msg e))

-- The message modal: its text, and the token that stands behind it with a button to copy it.
pub record Modal : Type 0 where
  pub message : Bytes
  pub token : Option Bytes

-- `if (token)`.
unfoldable pub show_message_modal : Bytes → Option Bytes → Modal
show_message_modal message none = record { message = message; token = none }
show_message_modal message (some []) = record { message = message; token = none }
show_message_modal message (some (c ∷ s)) = record { message = message; token = some (c ∷ s) }

-- The copy button's label: behind a good write to the clipboard, a failed one, and two seconds.
pub data Copying : Type 0 where
  written rejected elapsed : Copying

unfoldable pub copy_label : Copying → String → String
copy_label written label = "Copied!"
copy_label rejected label = label
copy_label elapsed label = "Copy"

-- The form of the configuration editor behind its loading, and the alert. An exception in the loop is
-- caught like a failed request: it has no answer.
abbrev pub loaded : Form × Bool → Form × Option Bytes
loaded (form, true) = (form, none)
loaded (form, false) = (form, some (error_text (err_msg none)))

module _ (unescape : Bytes → Bytes) where
  unfoldable pub on_load_answer : Answer (List Pair) → Form → Form × Option Bytes
  unfolding complaint
  on_load_answer (given pairs) form = loaded (load_config unescape pairs form)
  on_load_answer other form = (form, complaint other)

-- The alert behind a save, and whether the configuration is loaded again.
unfoldable pub on_save_answer : Answer (Unit {0}) → Bytes × Bool
on_save_answer (refused e) = (error_text e, false)
on_save_answer (given a) = (codes "Config updated successfully", true)
on_save_answer (failed e) = (error_text (err_msg e), false)

-- A request's method and URL.
abbrev pub Target : Type 0
Target = String × String

-- The click on the button that resets the key, by what the user confirms.
unfoldable pub reset_target : Bool → Option Target
reset_target true = some ("POST", "/api/v1/config/resetsecretkey")
reset_target false = none

unfoldable pub on_reset_answer : Answer (Unit {0}) → Bytes
on_reset_answer (refused e) = error_text e
on_reset_answer (given a) = codes "JWT Secret Key reset successfully"
on_reset_answer (failed e) = error_text (err_msg e)

-- The answer is the token.
unfoldable pub on_create_token_answer : Answer Bytes → Modal
unfolding show_message_modal
on_create_token_answer (refused e) = show_message_modal (error_text e) none
on_create_token_answer (given token) = show_message_modal (codes "API Token created:") (some token)
on_create_token_answer (failed e) = show_message_modal (error_text (err_msg e)) none

-- The alerts of the user editor's three forms; a search that finds its user shows none.
unfoldable pub search_alert {ℓ} : {A : Type ℓ} → Answer A → Option Bytes
unfolding complaint
search_alert answer = complaint answer

-- The answer is the new user's CID.
unfoldable pub create_alert : Answer ℤ → Bytes
create_alert (refused e) = error_text e
create_alert (given cid) = codes "User created successfully. CID: " ++ print_int cid
create_alert (failed e) = error_text (err_msg e)

unfoldable pub update_alert : Answer (Unit {0}) → Bytes
update_alert (refused e) = error_text e
update_alert (given a) = codes "User updated successfully"
update_alert (failed e) = error_text (err_msg e)

-- The dashboard's kick button: an answer with an `err` is no exception.
unfoldable pub kick_alert : Answer (Unit {0}) → Bytes
kick_alert (refused e) = codes "User kicked successfully"
kick_alert (given a) = codes "User kicked successfully"
kick_alert (failed e) = codes "Failed to kick user"

-- The button's request has the callsign for its body.
unfoldable pub kick_user : Bytes → Target × Bytes
kick_user callsign = (("POST", "/api/v1/fsdconn/kickuser"), callsign)
