-- ===== src/Web/Dashboard.antt =====
-- web/static/js/openfsd/dashboard.js: the user's panel and the map of pilots.
pub mod Popups
pub mod Layers
use openfsd.Prelude.{
  ℕ, ◌+◌, ◌==◌, Bool, true, false, ◌&&◌, ◌||◌, String, str_eq, List, [], ◌∷◌, ◌++◌, Option, none,
  some, map, any, length, if◌then◌else◌,
}
use openfsd.Prelude.Bytes.{Bytes}
use openfsd.Prelude.Int.{ℤ, pos, negsuc, leb_ℤ}
use openfsd.Callsign.Facility.{supervisor}

-- `networkRatingFromInt`.
unfoldable pub network_rating_from_int : ℤ → String
network_rating_from_int (negsuc n) = if n == 0 then "Inactive" else "Unknown"
network_rating_from_int (pos n) =
    if n == 0
    then "Suspended"
    else if n == 1
    then "Observer"
    else if n == 2
    then "Student 1"
    else if n == 3
    then "Student 2"
    else if n == 4
    then "Student 3"
    else if n == 5
    then "Controller 1"
    else if n == 6
    then "Controller 2"
    else if n == 7
    then "Controller 3"
    else if n == 8
    then "Instructor 1"
    else if n == 9
    then "Instructor 2"
    else if n == 10
    then "Instructor 3"
    else if n == 11
    then "Supervisor"
    else if n == 12
    then "Administrator"
    else "Unknown"

-- The user of the answer to `loadUserInfo`.
pub record UserInfo : Type 0 where
  pub cid : ℤ
  pub first_name : String
  pub network_rating : ℤ

-- The panel: the name in the greeting (empty: a greeting without one), the rating, the CID, and
-- whether it links to the editors.
pub record Panel : Type 0 where
  pub greeted : String
  pub rating : String
  pub cid : ℤ
  pub shows_editors : Bool

unfoldable pub load_user_info : UserInfo → Panel
unfolding network_rating_from_int
load_user_info user = record {
  greeted = user.first_name;
  rating = network_rating_from_int user.network_rating;
  cid = user.cid;
  shows_editors = leb_ℤ supervisor user.network_rating;
}

-- A pilot of the data feed; its position and heading are as the feed spells them.
pub record Pilot : Type 0 where
  pub callsign : String
  pub latitude : String
  pub longitude : String
  pub heading : String
  pub name : String

-- A marker: which object it is, `options.title`, where it stands and how it is turned, and whether its
-- popup has the kick button.
pub record Marker : Type 0 where
  pub id : ℕ
  pub title : String
  pub latitude : String
  pub longitude : String
  pub rotation : String
  pub can_kick : Bool

-- `dashboardMarkers`, the layers of the map by their objects (the tiles are one, and popups are not
-- counted), the number of the next object, the count that is shown, and `userNetworkRating`.
pub record Dashboard : Type 0 where
  pub markers : List Marker
  pub layers : List ℕ
  pub next_id : ℕ
  pub connection_count : ℕ
  pub user_network_rating : ℤ

-- The body of the loop over the pilots, up to the popup.
unfoldable pub marker_of : ℤ → ℕ → Pilot → Marker
marker_of rating id pilot = record {
  id = id;
  title = pilot.callsign;
  latitude = pilot.latitude;
  longitude = pilot.longitude;
  rotation = pilot.heading;
  can_kick = leb_ℤ supervisor rating;
}

-- `map.removeLayer` and `marker.addTo(map)`, which keep the other layers.
unfoldable pub remove_layer : ℕ → List ℕ → List ℕ
remove_layer id [] = []
remove_layer id (l ∷ ls) = let rest = remove_layer id ls in if l == id then rest else l ∷ rest

abbrev pub add_to : Marker → List ℕ → List ℕ
add_to m layers = layers ++ m.id ∷ []

-- The loop over the old markers.
unfoldable pub remove_markers : List Marker → List ℕ → List ℕ
unfolding remove_layer
remove_markers [] layers = layers
remove_markers (m ∷ ms) layers = remove_markers ms (remove_layer m.id layers)

-- One round of the loop over the pilots, without its popup, and the rest.
unfoldable pub add_markers : List Pilot → Dashboard → Dashboard
unfolding marker_of
add_markers [] d = d
add_markers (pilot ∷ pilots) d =
    let marker = marker_of d.user_network_rating d.next_id pilot in
    add_markers pilots (record d {
      markers = d.markers ++ marker ∷ [];
      layers = add_to marker d.layers;
      next_id = d.next_id + 1;
    })

-- Leaflet's answer to `marker.getPopup() && marker.getPopup().isOpen()`.
module _ (is_open : Marker → Bool) where
  -- `openCallsigns`, as a list.
  unfoldable pub open_callsigns : List Marker → List String
  open_callsigns [] = []
  open_callsigns (m ∷ ms) =
      let rest = open_callsigns ms in if is_open m then m.title ∷ rest else rest

  -- The markers on which the loop calls `openPopup`, in order.
  unfoldable pub reopened : List String → List Marker → List Marker
  reopened titles [] = []
  reopened titles (m ∷ ms) =
      let rest = reopened titles ms in if any (str_eq m.title) titles then m ∷ rest else rest

  -- The answer of the data feed; none is a failed request, which leaves the map as it is.
  unfoldable pub populate_map : Option (List Pilot) → Dashboard → Dashboard × List Marker
  unfolding remove_markers add_markers
  populate_map none d = (d, [])
  populate_map (some pilots) d =
      let cleared = record d { markers = []; layers = remove_markers d.markers d.layers } in
      let d' : Dashboard = add_markers pilots cleared in
      (
        record d' { connection_count = length d'.markers },
        reopened (open_callsigns d.markers) d'.markers,
      )
