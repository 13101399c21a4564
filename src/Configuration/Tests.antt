-- ===== src/Configuration/Tests.antt =====
-- web/config.go: settings at concrete inputs.
use openfsd.Prelude.{◌≡◌, refl, false, List, [], ◌∷◌, ◌++◌, none, some, if◌then◌else◌}
use openfsd.Prelude.Bytes.{codes}
use openfsd.Prelude.Int.{pos, ltb_ℤ, ◌≤ℤ◌}
use openfsd.Callsign.Facility.{administrator}
use openfsd.Packet.Code
use openfsd.Db.Config.{
  Settings, get, set, select_value, upsert, generate_jwt_secret_key, jwt_secret_key,
  welcome_message,
}
use openfsd.Fsd.Auth.{hex}
use openfsd.Fsd.Jwt.{CustomClaims}
use openfsd.Fsd.Login.Authenticate.{Backend, deny, invalid_logon_msg, authenticate_token}
use openfsd.Fsd.Tests.{client, pilot_name}
use openfsd.Fsd.Tests.ListTree.{flat}
use openfsd.Fsd.Tests.Tokens.{plain_jwt, plain_laws}
use openfsd.Fsd.Tests.Logins.{backend}
use openfsd.Web.ConfigEditor.{Pair, Form, pair_of, load_config}
use openfsd.Web.Messages.{on_load_answer}
use openfsd.Session.{failure, refresh_access_token, jwt_bearer_middleware}
use openfsd.Session.Kinds.{claims_at}
use openfsd.Session.Given.{api_fields}
use openfsd.Configuration.{
  config_keys, read_keys, handle_get_config, handle_update_config, write_pairs,
  handle_reset_secret_key,
}
use openfsd.Configuration.Answers.{
  latest, seen, get_config-on_load_answer, update_config-get, reset_secret_key-ends,
}

abbrev admin_claims : CustomClaims
admin_claims = claims_at (codes "a") 0 (api_fields (pos 9)) 1000

abbrev greeting : Settings
greeting = record { rows = (welcome_message, codes "Hi") ∷ []; down = false }

abbrev form : Form
form = record { inputs = []; new_inputs = [] }

get_config-on_load_answer_example :
    on_load_answer (λ s. s) (seen (handle_get_config admin_claims greeting)) form ≡ (
      if ltb_ℤ administrator administrator
      then (form, some (codes "Error: forbidden"))
      else elim (read_keys config_keys greeting) [
        | none ↦ (form, some (codes "Error: Error reading key/value from persistent storage"))
        | some pairs ↦ ((load_config (λ s. s) pairs form).0, none)
      ])
get_config-on_load_answer_example = get_config-on_load_answer (λ s. s) admin_claims greeting form

-- The page has the greeting.
greeting_read : read_keys config_keys greeting ≡ some (pair_of welcome_message (codes "Hi") ∷ [])
unfolding read_keys get select_value
greeting_read = refl

abbrev changes : List Pair
changes = pair_of welcome_message (codes "Ho") ∷ pair_of welcome_message (codes "Hey") ∷ []

update_config-get_example :
    (administrator ≤ℤ administrator)
    × (get welcome_message (record { rows = (welcome_message, codes "Hey") ∷ []; down = false })
        ≡ latest welcome_message changes (get welcome_message greeting))
unfolding handle_update_config write_pairs set upsert
update_config-get_example =
    update_config-get admin_claims changes greeting
      (record { rows = (welcome_message, codes "Hey") ∷ []; down = false }) welcome_message refl

abbrev reset : Settings
reset = record { rows = (jwt_secret_key, hex (1 ∷ 2 ∷ [])) ∷ []; down = false }

reset_secret_key-ends_example :
    let after : Backend = record backend { settings = reset } in
    let token = plain_jwt.sign (codes "s") admin_claims in
    (jwt_bearer_middleware after 5 (codes "Bearer " ++ token)
      ≡ failure 401 (codes "invalid bearer token"))
    × (refresh_access_token after none 5 (some token) ≡ failure 401 (codes "bad token"))
    × (authenticate_token flat after 5 token (client pilot_name false 10)
        ≡ deny flat Code.invalid_logon invalid_logon_msg)
unfolding handle_reset_secret_key set upsert hex generate_jwt_secret_key
reset_secret_key-ends_example =
    reset_secret_key-ends flat backend plain_laws admin_claims admin_claims (codes "s") (1 ∷ 2 ∷ [])
      reset none 5 (client pilot_name false 10) refl (λ e. absurd (cc))
