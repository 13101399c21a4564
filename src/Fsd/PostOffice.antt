-- ===== src/Fsd/PostOffice.antt =====
-- fsd/postoffice.go: the registered clients by callsign, and their places in an R-tree. Each
-- operation is one step; the locks that keep it from others are not modelled.
pub mod Invariant
pub mod Register
pub mod Release
pub mod Move
use openfsd.Prelude.{ℕ, ◌&&◌, not, List, [], ◌∷◌, Option, none, some, ◌==◌, if◌then◌else◌}
use openfsd.Prelude.Bytes.{Bytes, bytes_eq}
use openfsd.Prelude.Int.{pos, eqb_ℤ}
use openfsd.Fsd.Env.{Env, Box, box_eq}
use openfsd.Fsd.Client.{Client, send, queues}

-- The store of clients by their addresses, the map from callsigns, the tree, and what was queued for
-- the METAR service: the client that asks, and the airport.
pub record World (env : Env) : Type 0 where
  pub clients : ℕ → Client env
  pub client_map : List (Bytes × ℕ)
  pub tree : env.Tree
  pub metar_requests : List (ℕ × Bytes)

pub data Error : Type 0 where
  callsign_in_use callsign_does_not_exist context_done : Error

-- `p.clientMap[callsign]`.
unfoldable pub lookup : Bytes → List (Bytes × ℕ) → Option ℕ
lookup k [] = none
lookup k ((j, c) ∷ m) = if bytes_eq j k then some c else lookup k m

-- `delete(p.clientMap, callsign)`.
unfoldable pub without : Bytes → List (Bytes × ℕ) → List (Bytes × ℕ)
without k [] = []
without k ((j, c) ∷ m) = let rest = without k m in if bytes_eq j k then rest else (j, c) ∷ rest

module _ (env : Env) where
  open env use {Float, add, sub, mul, div, sin, cos, sqrt, atan2, lt, half, one, two}

  -- A write through a client's address.
  unfoldable pub modify : ℕ → (Client env → Client env) → World env → World env
  modify id f w = record w { clients = λ j. if j == id then f (w.clients j) else w.clients j }

  unfoldable pub calculate_bounding_box : Float → Float → Float → Box env
  calculate_bounding_box lat lon radius =
      let lat_rad = mul lat env.deg_to_rad in
      let delta_lat = div radius env.meters_per_degree_lat in
      let meters_per_degree_lon = mul env.meters_per_degree_lat (cos lat_rad) in
      let delta_lon = div radius meters_per_degree_lon in
      (sub lat delta_lat, sub lon delta_lon, add lat delta_lat, add lon delta_lon)

  -- The haversine formula.
  unfoldable pub distance : Float → Float → Float → Float → Float
  distance lat1 lon1 lat2 lon2 =
      let d_lat = mul (sub lat2 lat1) env.deg_to_rad in
      let d_lon = mul (sub lon2 lon1) env.deg_to_rad in
      let sin_d_lat2 = sin (mul d_lat half) in
      let sin_d_lon2 = sin (mul d_lon half) in
      let cos_lat1 = cos (mul lat1 env.deg_to_rad) in
      let cos_lat2 = cos (mul lat2 env.deg_to_rad) in
      let a =
        add (mul sin_d_lat2 sin_d_lat2) (mul (mul (mul cos_lat1 cos_lat2) sin_d_lon2) sin_d_lon2) in
      mul env.earth_radius (mul two (atan2 (sqrt a) (sqrt (sub one a))))

  -- The box of a client where it stands.
  abbrev pub box_of : Client env → Box env
  box_of c = calculate_bounding_box c.lat c.lon c.vis_range

  unfoldable pub register : ℕ → World env → World env × Option Error
  register id w = elim (lookup (w.clients id).callsign w.client_map) [
    | some other ↦ (w, some callsign_in_use)
    | none ↦ (
      record w {
        client_map = ((w.clients id).callsign, id) ∷ w.client_map;
        tree = env.insert (box_of (w.clients id)) id w.tree;
      },
      none,
    )
  ]

  unfoldable pub release : ℕ → World env → World env
  release id w = record w {
    tree = env.delete (box_of (w.clients id)) id w.tree;
    client_map = without (w.clients id).callsign w.client_map;
  }

  abbrev pub move : Float → Float → Float → Client env → Client env
  move lat lon range c = record c { lat = lat; lon = lon; vis_range = range }

  -- The tree is written only where the box has changed.
  unfoldable pub update_position : ℕ → Float → Float → Float → World env → World env
  unfolding modify
  update_position id lat lon range w =
      let old = box_of (w.clients id) in
      let new = calculate_bounding_box lat lon range in
      let w' = modify id (move lat lon range) w in
      if box_eq env old new
      then w'
      else record w' { tree = env.insert new id (env.delete old id w'.tree) }

  -- The callback's own work for one found client: the distance to the closest client of protocol
  -- revision 101, kept for a pilot of that revision.
  unfoldable pub note_distance : ℕ → ℕ → World env → World env
  unfolding modify distance
  note_distance id found w =
      let c = w.clients id in
      let f = w.clients found in
      let d = distance c.lat c.lon f.lat f.lon in
      if not c.is_atc
        && eqb_ℤ c.proto_revision (pos 101)
        && eqb_ℤ f.proto_revision (pos 101)
        && lt d c.closest_velocity_client_distance
      then modify id (λ k. record k { closest_velocity_client_distance = d }) w
      else w

  -- The search's loop over what the tree found; the client itself is passed over. The callbacks that
  -- the server passes all go on to the end.
  unfoldable pub visit : ℕ → (ℕ → World env → World env) → List ℕ → World env → World env
  unfolding note_distance
  visit id callback [] w = w
  visit id callback (found ∷ rest) w =
      visit id callback rest (if found == id then w else callback found (note_distance id found w))

  unfoldable pub search : ℕ → (ℕ → World env → World env) → World env → World env
  unfolding visit modify
  search id callback w =
      visit id callback (env.search (box_of (w.clients id)) w.tree)
        (modify id (λ c. record c { closest_velocity_client_distance = env.max_float }) w)

  unfoldable pub find : Bytes → World env → Option ℕ
  find callsign w = lookup callsign w.client_map

  unfoldable pub send_to : Bytes → Bytes → World env → World env × Option Error
  send_to callsign packet w = elim (find callsign w) [
    | none ↦ (w, some callsign_does_not_exist)
    | some id ↦ (
      modify id (send env packet) w,
      if queues env (w.clients id) then none else some context_done,
    )
  ]

  -- The loop of `all` over the map, whose order Go leaves open.
  unfoldable pub each : ℕ → (ℕ → World env → World env) → List (Bytes × ℕ) → World env → World env
  each id callback [] w = w
  each id callback ((k, c) ∷ m) w = each id callback m (if c == id then w else callback c w)

  unfoldable pub all_clients : ℕ → (ℕ → World env → World env) → World env → World env
  unfolding each
  all_clients id callback w = each id callback w.client_map w
