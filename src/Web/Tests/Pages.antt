-- ===== src/Web/Tests/Pages.antt =====
-- web/static/js/openfsd: the pages' forms and the map at concrete inputs.
use openfsd.Prelude.{
  ◌&&◌, ◌||◌, not, ◌≡◌, ◌↔◌, refl, Bool, true, false, String, ◌++◌, str_eq_iff, [], ◌∷◌, map, none,
  some, arith, length, All,
}
use mathlib.Core.Option
use mathlib.Core.List.{Memᴰ}
use openfsd.Prelude.Bytes.{Bytes, codes}
use openfsd.Prelude.Int.{pos}
use openfsd.Web.UserEditor.Password.{evaluate_password}
use openfsd.Web.UserEditor.Password.Bands.{is_mixed, evaluate_password_strong_iff}
use openfsd.Web.UserEditor.Forms.{User, EditForm}
use openfsd.Web.ConfigEditor.{lookup, label_of, Form, Pair, load_config, save_config}
use openfsd.Web.ConfigEditor.Collect.{IsShown, save-load_config}
use openfsd.Web.ConfigEditor.{add_config, on_select, typed_in, change_last, pair_of}
use openfsd.Web.ConfigEditor.Adding.{save-add_config}
use openfsd.Web.Dashboard.{Pilot, Marker, Dashboard, populate_map}
use openfsd.Web.Dashboard.Popups.{HasOpen}
use openfsd.Web.Dashboard.Layers.{is_layer, is_marker, IsMade, populate_map_good}

evaluate_password_strong_iff_example :
    ((evaluate_password (codes "aB3!aB3!")).class_name ≡ "progress-bar bg-success")
    ↔ ((length (codes "aB3!aB3!") ≡ 8) × (is_mixed (codes "aB3!aB3!") ≡ true))
evaluate_password_strong_iff_example = evaluate_password_strong_iff (codes "aB3!aB3!")

abbrev ada : User
ada = record {
  cid = pos 10;
  first_name = some (codes "Ada");
  last_name = none;
  network_rating = pos 4;
}

abbrev empty_form : EditForm
empty_form = record {
  cid = [];
  cid_hidden = true;
  first_name = [];
  last_name = [];
  network_rating = [];
  password = [];
}

abbrev hostname : Pair
hostname = record { key = "FSD_SERVER_HOSTNAME"; value = codes "fsd.example" }

abbrev secret : Pair
secret = record { key = "JWT_SECRET_KEY"; value = codes "x" }

abbrev no_form : Form
no_form = record { inputs = []; new_inputs = [] }

hostname-IsShown : All IsShown (hostname ∷ [])
unfolding label_of lookup
hostname-IsShown = (((_, refl), omega arith), tt)

abbrev plainly : Bytes → Bytes
plainly s = s

save-load_config_example :
    ((load_config plainly (hostname ∷ []) no_form).1 ≡ true)
    × (save_config (load_config plainly (hostname ∷ []) no_form).0 ≡ some (hostname ∷ []))
save-load_config_example =
    save-load_config plainly (hostname ∷ []) no_form (λ s h. refl) hostname-IsShown

abbrev server_key : String
server_key = "FSD_SERVER_IDENT"

save-add_config_example :
    save_config (
      change_last (typed_in (codes "ME")) (change_last (on_select server_key) (add_config no_form)))
    ≡ Option.map (λ pairs. pairs ++ pair_of server_key (codes "ME") ∷ []) (save_config no_form)
unfolding label_of lookup
save-add_config_example =
    save-add_config no_form server_key (codes "ME") _ refl
      (λ e. ground (arith, str_eq_iff server_key "", e))

abbrev pilot : Pilot
pilot = record {
  callsign = "N1";
  latitude = "1.5";
  longitude = "2.5";
  heading = "90";
  name = "Ada";
}

abbrev marker : Marker
marker = record {
  id = 4;
  title = "N1";
  latitude = "1.0";
  longitude = "2.0";
  rotation = "80";
  can_kick = false;
}

abbrev board : Dashboard
board = record {
  markers = marker ∷ [];
  layers = 0 ∷ 4 ∷ [];
  next_id = 5;
  connection_count = 1;
  user_network_rating = pos 1;
}

abbrev always : Marker → Bool
always m = true

-- Layer 4 is the old marker.
populate_map_good_example :
    let (d', opened) = populate_map always (some (pilot ∷ [])) board in
    (map (λ n. n.title) d'.markers ≡ map (λ p. p.callsign) (pilot ∷ []))
    × (d'.connection_count ≡ 1)
    × (Memᴰ marker opened ↔ (Memᴰ marker d'.markers × HasOpen always "N1" board.markers))
    × (is_layer 4 d'.layers
        ≡ ((is_layer 4 board.layers && not (is_marker 4 board.markers)) || is_marker 4 d'.markers))
    × ((is_marker 4 board.markers && is_layer 4 d'.layers) ≡ false)
    × All (IsMade d'.next_id) d'.markers
populate_map_good_example = populate_map_good always (pilot ∷ []) board marker 4 (omega arith)
