-- ===== src/Db/Config.antt =====
-- db/config_repository.go and db/config_sqlite.go: the table of the server's settings.
-- config_postgres.go has the same statements in the other dialect.
pub mod Stored
use openfsd.Prelude.{
  Bool, true, false, String, str_eq, List, [], ◌∷◌, Option, none, some, if◌then◌else◌,
}
use openfsd.Prelude.Bytes.{Bytes, codes}
use openfsd.Fsd.Auth.{hex}

abbrev pub jwt_secret_key : String
jwt_secret_key = "JWT_SECRET_KEY"

abbrev pub fsd_server_hostname : String
fsd_server_hostname = "FSD_SERVER_HOSTNAME"

abbrev pub fsd_server_ident : String
fsd_server_ident = "FSD_SERVER_IDENT"

abbrev pub fsd_server_location : String
fsd_server_location = "FSD_SERVER_LOCATION"

abbrev pub api_server_base_url : String
api_server_base_url = "API_SERVER_BASE_URL"

abbrev pub welcome_message : String
welcome_message = "WELCOME_MESSAGE"

-- The table `config`, whose key is primary, and whether the database answers at all.
pub record Settings : Type 0 where
  pub rows : List (String × Bytes)
  pub down : Bool

pub data Got : Type 0 where
  value : Bytes → Got
  key_not_found failed : Got

-- `WHERE key = ?`.
unfoldable pub select_value : String → List (String × Bytes) → Got
select_value key [] = key_not_found
select_value key ((k, v) ∷ rows) = if str_eq k key then value v else select_value key rows

unfoldable pub get : String → Settings → Got
unfolding select_value
get key s = if s.down then failed else select_value key s.rows

-- `ON CONFLICT(key) DO UPDATE`.
unfoldable pub upsert : String → Bytes → List (String × Bytes) → List (String × Bytes)
upsert key v [] = (key, v) ∷ []
upsert key v ((k, w) ∷ rows) =
    let rest = upsert key v rows in if str_eq k key then (k, v) ∷ rows else (k, w) ∷ rest

-- none is the error of the statement.
unfoldable pub set : String → Bytes → Settings → Option Settings
unfolding upsert
set key v s = if s.down then none else some (record s { rows = upsert key v s.rows })

-- `ON CONFLICT(key) DO NOTHING`.
unfoldable pub insert_new : String → Bytes → List (String × Bytes) → List (String × Bytes)
insert_new key v [] = (key, v) ∷ []
insert_new key v ((k, w) ∷ rows) =
    let rest = insert_new key v rows in if str_eq k key then (k, w) ∷ rows else (k, w) ∷ rest

unfoldable pub set_if_not_exists : String → Bytes → Settings → Option Settings
unfolding insert_new
set_if_not_exists key v s =
    if s.down then none else some (record s { rows = insert_new key v s.rows })

-- The random bytes are the argument; none is a failed read of them.
unfoldable pub generate_jwt_secret_key : Option Bytes → Option Bytes
generate_jwt_secret_key none = none
generate_jwt_secret_key (some bytes) = some (hex bytes)

unfoldable pub get_welcome_message : Settings → Bytes
unfolding get
get_welcome_message s = elim (get welcome_message s) [ value v ↦ v | _ ↦ [] ]

abbrev pub default_config : Bytes → List (String × Bytes)
default_config secret_key =
    (jwt_secret_key, secret_key)
    ∷ (welcome_message, codes "Connected to openfsd")
    ∷ (fsd_server_hostname, codes "localhost")
    ∷ (fsd_server_ident, codes "OPENFSD")
    ∷ (fsd_server_location, codes "Earth")
    ∷ (api_server_base_url, codes "http://localhost")
    ∷ []

-- The loop over the map, whose order Go leaves open.
unfoldable pub set_defaults : List (String × Bytes) → Settings → Option Settings
unfolding set_if_not_exists
set_defaults [] s = some s
set_defaults ((k, v) ∷ rest) s = elim (set_if_not_exists k v s) [
  | none ↦ none
  | some s' ↦ set_defaults rest s'
]

unfoldable pub init_default_config : Option Bytes → Settings → Option Settings
unfolding generate_jwt_secret_key set_defaults
init_default_config random s = elim (generate_jwt_secret_key random) [
  | none ↦ none
  | some key ↦ set_defaults (default_config key) s
]
