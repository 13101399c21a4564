-- ===== src/Configuration.antt =====
-- web/config.go: the endpoints that read and change the server's settings.
pub mod Answers
mod Tests
use openfsd.Prelude.{ℕ, Bool, true, false, String, List, [], ◌∷◌, Option, none, some, if◌then◌else◌}
use openfsd.Prelude.Bytes.{Bytes, codes}
use openfsd.Prelude.Int.{ltb_ℤ}
use openfsd.Callsign.Facility.{administrator}
use openfsd.Db.Config.{
  Settings, Got, value, key_not_found, failed, get, set, generate_jwt_secret_key, jwt_secret_key,
  welcome_message, fsd_server_hostname, fsd_server_ident, fsd_server_location, api_server_base_url,
}
use openfsd.Fsd.Jwt.{CustomClaims}
use openfsd.Web.ConfigEditor.{Pair}
use openfsd.Session.{Reply, failure, success, bad_body, internal}

abbrev pub config_keys : List String
config_keys =
    welcome_message ∷ fsd_server_hostname ∷ fsd_server_ident ∷ fsd_server_location
    ∷ api_server_base_url ∷ []

abbrev pub cons_pair : String → Bytes → Option (List Pair) → Option (List Pair)
cons_pair key v none = none
cons_pair key v (some rest) = some (record { key = key; value = v } ∷ rest)

-- One round of the loop, before the rest: a key that is not there is passed over.
abbrev pub with_key : String → Got → Option (List Pair) → Option (List Pair)
with_key key (value v) rest = cons_pair key v rest
with_key key key_not_found rest = rest
with_key key failed rest = none

-- The loop over the keys; none is the error of a read.
unfoldable pub read_keys : List String → Settings → Option (List Pair)
read_keys [] s = some []
read_keys (key ∷ keys) s = with_key key (get key s) (read_keys keys s)

abbrev pub is_forbidden : CustomClaims → Bool
is_forbidden claims = ltb_ℤ claims.fields.network_rating administrator

unfoldable pub handle_get_config : CustomClaims → Settings → Reply (List Pair)
unfolding read_keys
handle_get_config claims s =
    if is_forbidden claims
    then failure 403 (codes "forbidden")
    else elim (read_keys config_keys s) [
      | none ↦ failure 500 (codes "Error reading key/value from persistent storage")
      | some pairs ↦ success pairs
    ]

-- The loop of the update: the table behind it, and whether every statement went through.
unfoldable pub write_pairs : List Pair → Settings → Settings × Bool
write_pairs [] s = (s, true)
write_pairs (kv ∷ rest) s = elim (set kv.key kv.value s) [
  | none ↦ (s, false)
  | some s' ↦ write_pairs rest s'
]

abbrev pub update_reply : Settings × Bool → Settings × Reply (Unit {0})
update_reply (s, true) = (s, success tt)
update_reply (s, false) = (s, failure 500 (codes "Error writing key/value into persistent storage"))

-- A body is none where it is no JSON of a list of pairs; the tags of the pairs' fields are not
-- checked, since the list's own tag does not say to look into it.
unfoldable pub handle_update_config :
    CustomClaims → Option (List Pair) → Settings → Settings × Reply (Unit {0})
unfolding write_pairs
handle_update_config claims body s =
    if is_forbidden claims
    then (s, failure 403 (codes "forbidden"))
    else elim body [ none ↦ (s, bad_body) | some pairs ↦ update_reply (write_pairs pairs s) ]

abbrev pub store_secret : Settings → Option Bytes → Settings × Reply (Unit {0})
store_secret s none = (s, internal)
store_secret s (some key) = elim (set jwt_secret_key key s) [
  | none ↦ (s, internal)
  | some s' ↦ (s', success tt)
]

-- The random bytes are the second argument.
unfoldable pub handle_reset_secret_key :
    CustomClaims → Option Bytes → Settings → Settings × Reply (Unit {0})
unfolding set
handle_reset_secret_key claims random s =
    if is_forbidden claims
    then (s, failure 403 (codes "forbidden"))
    else store_secret s (generate_jwt_secret_key random)
