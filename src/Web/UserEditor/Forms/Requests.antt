-- ===== src/Web/UserEditor/Forms/Requests.antt =====
-- What the edit form sends for the user that was searched.
use mathlib.Core.Option
use openfsd.Prelude.{◌≡◌, refl, none}
use openfsd.Web.UserEditor.Forms.{
  EditForm, Answer, failed, found, on_search_answer, edit_request, if_given,
}

-- A password in the form behind a failed search stays there, and one behind a found user is cleared.
pub edit_request_password :
    (answer : Answer) (form : EditForm)
    → (edit_request (on_search_answer answer form)).password
      ≡ (elim answer [ failed e ↦ if_given form.password | found user ↦ none ])
unfolding edit_request on_search_answer
edit_request_password (failed e) form = refl
edit_request_password (found user) form = refl
