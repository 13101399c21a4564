-- ===== src/Web/Dashboard/Layers.antt =====
-- The map behind an update: one marker for each pilot, and no old one.
use openfsd.Prelude.{
  Bool-cases, inl, inr, ℕ, ◌+◌, ◌≤◌, ◌<◌, ◌==◌, ◌≡◌, ◌↔◌, refl, sym, ap, ◌∙◌, Bool, true, false,
  ◌&&◌, ◌||◌, not, List, [], ◌∷◌, ◌++◌, some, map, any, length, length-map, All, All-append, arith,
  ==_iff,
}
use openfsd.Web.Dashboard.{
  Pilot, Marker, Dashboard, marker_of, remove_layer, remove_markers, add_markers, open_callsigns,
  populate_map,
}
use openfsd.Web.Dashboard.Popups.{HasOpen, HasOpen-any, any-HasOpen, mem-reopened, reopened-mem}
use mathlib.Core.List.{Memᴰ, append_assoc, append-nil, map-append}

-- Whether the object is a layer of the map, and whether it is one of the markers.
abbrev pub is_layer : ℕ → List ℕ → Bool
is_layer x layers = any (λ l. l == x) layers

abbrev pub is_marker : ℕ → List Marker → Bool
is_marker x markers = any (λ m. m.id == x) markers

-- The marker is an object that was made before.
abbrev pub IsMade : ℕ → Marker → Type 0
IsMade next_id m = m.id < next_id

layer-append : (x : ℕ) (ls ks : List ℕ) → is_layer x (ls ++ ks) ≡ (is_layer x ls || is_layer x ks)
layer-append x [] ks = refl
layer-append x (l ∷ ls) ks = ground (arith, layer-append x ls ks)

marker-append :
    (x : ℕ) (ms ns : List Marker) → is_marker x (ms ++ ns) ≡ (is_marker x ms || is_marker x ns)
marker-append x [] ns = refl
marker-append x (m ∷ ms) ns = ground (arith, marker-append x ms ns)

layer-remove :
    (x id : ℕ) (ls : List ℕ) → is_layer x (remove_layer id ls) ≡ (is_layer x ls && not (id == x))
unfolding remove_layer
layer-remove x id [] = refl
layer-remove x id (l ∷ ls) =
    ground (arith, layer-remove x id ls, ==_iff l id, ==_iff id x, ==_iff l x)

layer-remove_markers :
    (x : ℕ) (ms : List Marker) (ls : List ℕ)
    → is_layer x (remove_markers ms ls) ≡ (is_layer x ls && not (is_marker x ms))
unfolding remove_markers
layer-remove_markers x [] ls = ground arith
layer-remove_markers x (m ∷ ms) ls =
    ground (arith, layer-remove_markers x ms (remove_layer m.id ls), layer-remove x m.id ls)

add_markers-titles :
    (pilots : List Pilot) (d : Dashboard)
    → map (λ n. n.title) (add_markers pilots d).markers
      ≡ map (λ n. n.title) d.markers ++ map (λ p. p.callsign) pilots
unfolding add_markers marker_of
add_markers-titles [] d = sym (append-nil _)
add_markers-titles (p ∷ pilots) d =
    add_markers-titles pilots _
    ∙ ap (λ l. l ++ map (λ q. q.callsign) pilots) (map-append (λ n. n.title) d.markers _)
    ∙ append_assoc (map (λ n. n.title) d.markers) (p.callsign ∷ []) _

-- Every layer is an old one of the map or a marker.
add_markers-layers :
    (x : ℕ) (old : Bool) (pilots : List Pilot) (d : Dashboard)
    → is_layer x d.layers ≡ (old || is_marker x d.markers)
    → is_layer x (add_markers pilots d).layers ≡ (old || is_marker x (add_markers pilots d).markers)
unfolding add_markers marker_of
add_markers-layers x old [] d h = h
add_markers-layers x old (p ∷ pilots) d h =
    let m : Marker = marker_of d.user_network_rating d.next_id p in
    add_markers-layers x old pilots _
      (ground (arith, layer-append x d.layers (m.id ∷ []), marker-append x d.markers (m ∷ [])))

-- The new objects' numbers, from `low` on.
add_markers-IsMade :
    (low : ℕ) (pilots : List Pilot) (d : Dashboard)
    → low ≤ d.next_id
    → All (λ m. (low ≤ m.id) × IsMade d.next_id m) d.markers
    → All
        (λ m. (low ≤ m.id) × IsMade (add_markers pilots d).next_id m)
        (add_markers pilots d).markers
unfolding add_markers marker_of
add_markers-IsMade low [] d le made = made
add_markers-IsMade low (p ∷ pilots) d le made = add_markers-IsMade low pilots _ (omega arith) (
    All-append (λ m. (low ≤ m.id) × IsMade (d.next_id + 1) m) d.markers _
      (still low d.next_id d.markers made) ((le, omega arith), tt))
  where
    still :
        (low n : ℕ) (ms : List Marker)
        → All (λ m. (low ≤ m.id) × IsMade n m) ms
        → All (λ m. (low ≤ m.id) × IsMade (n + 1) m) ms
    still low n [] h = tt
    still low n (m ∷ ms) ((l, p), h) = ((l, omega arith), still low n ms h)

marker-IsMade : (x n : ℕ) (ms : List Marker) → All (IsMade n) ms → is_marker x ms ≡ true → x < n
marker-IsMade x n [] h e = absurd (ground arith)
marker-IsMade x n (m ∷ ms) (p, h) e = ground (arith, marker-IsMade x n ms h, ==_iff m.id x)

marker_from :
    (x low n : ℕ) (ms : List Marker)
    → All (λ m. (low ≤ m.id) × IsMade n m) ms
    → is_marker x ms ≡ true
    → low ≤ x
marker_from x low n [] h e = absurd (ground arith)
marker_from x low n (m ∷ ms) (p, h) e = ground (arith, marker_from x low n ms h, ==_iff m.id x)

All-IsMade :
    (low n : ℕ) (ms : List Marker) → All (λ m. (low ≤ m.id) × IsMade n m) ms → All (IsMade n) ms
All-IsMade low n [] h = tt
All-IsMade low n (m ∷ ms) ((_, p), h) = (p, All-IsMade low n ms h)

module _ (is_open : Marker → Bool) where
  -- Behind a good answer the dashboard has one marker for each pilot, in order, titled with the
  -- pilot's callsign, and shows their number; `openPopup` is called for a new marker exactly when an
  -- old one of the same title had its popup open. The layers of the map are its old layers without
  -- the old markers, and the new markers, so that no old marker stays. The old markers are objects
  -- that were made before, and then so are the new ones at the next update.
  pub populate_map_good :
      (pilots : List Pilot) (d : Dashboard) (m : Marker) (layer : ℕ)
      → All (IsMade d.next_id) d.markers
      → let (d', opened) = populate_map is_open (some pilots) d in
        (map (λ n. n.title) d'.markers ≡ map (λ p. p.callsign) pilots)
        × (d'.connection_count ≡ length pilots)
        × (Memᴰ m opened ↔ (Memᴰ m d'.markers × HasOpen is_open m.title d.markers))
        × (is_layer layer d'.layers ≡ (
            (is_layer layer d.layers && not (is_marker layer d.markers))
            || is_marker layer d'.markers))
        × ((is_marker layer d.markers && is_layer layer d'.layers) ≡ false)
        × All (IsMade d'.next_id) d'.markers
  unfolding populate_map
  populate_map_good pilots d m layer made =
      let cleared : Dashboard = record d {
        markers = [];
        layers = remove_markers d.markers d.layers;
      } in
      let d' : Dashboard = add_markers pilots cleared in
      let titles = add_markers-titles pilots cleared in
      let opened = open_callsigns is_open d.markers in
      let new_made = add_markers-IsMade d.next_id pilots cleared (omega arith) tt in
      let layers =
        add_markers-layers layer (is_layer layer d.layers && not (is_marker layer d.markers)) pilots
          cleared (ground (arith, layer-remove_markers layer d.markers d.layers)) in
      (
        titles,
        sym (length-map (λ n. n.title) d'.markers)
            ∙ ap length titles
            ∙ length-map (λ p. p.callsign) pilots,
        (
          λ l.
              let (there, h) = mem-reopened is_open opened m d'.markers l in
              (there, HasOpen-any is_open m.title d.markers h),
          λ (there, o).
              reopened-mem is_open opened m d'.markers there
                (any-HasOpen is_open m.title d.markers o),
        ),
        layers,
        gone d' layers new_made,
        All-IsMade d.next_id d'.next_id d'.markers new_made,
      )
    where
      gone :
          (d' : Dashboard)
          → is_layer layer d'.layers ≡ (
              (is_layer layer d.layers && not (is_marker layer d.markers))
              || is_marker layer d'.markers)
          → All (λ n. (d.next_id ≤ n.id) × IsMade d'.next_id n) d'.markers
          → (is_marker layer d.markers && is_layer layer d'.layers) ≡ false
      gone d' layers new_made = elim (Bool-cases (is_marker layer d.markers)) [
        | inl was ↦ elim (Bool-cases (is_marker layer d'.markers)) [
          | inl again ↦
              let low = marker_from layer d.next_id d'.next_id d'.markers new_made again in
              let high = marker-IsMade layer d.next_id d.markers made was in absurd (omega arith)
          | inr unmade ↦ ground (arith, layers, was, unmade)
        ]
        | inr other ↦ rw other refl
      ]
