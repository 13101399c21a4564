-- ===== src/Fsd/Server/Moves.antt =====
-- fsd/handler.go: position updates keep the agreement, the registrations and the contexts.
use openfsd.Prelude.{
  ℕ, ◌≡◌, inl, refl, sym, ◌∙◌, Bool, true, false, not, some, arith, ==_iff, if◌then◌else◌,
}
use mathlib.Core.Path.{ap₂}
use openfsd.Prelude.Bytes.{Bytes}
use openfsd.Callsign.Facility.{is_allowed_facility_type}
use openfsd.Packet.Fields.{get_field}
use openfsd.Fsd.Env.{Env, Laws, box_eq}
use openfsd.Fsd.Client.{Client}
use openfsd.Fsd.Numbers.{parse_int32}
use openfsd.Fsd.PostOffice.{World, lookup, modify, calculate_bounding_box, box_of, update_position}
use openfsd.Fsd.PostOffice.Move.{update_position-IsConsistent}
use openfsd.Fsd.Handlers.Position.{
  parse_lat_lon, parse_vis_range, send_send_fast_packet, update_send_fast, note_pilot, atc_move,
  handle_pilot_position, handle_atc_position,
}
use openfsd.Fsd.Server.Keeps.{
  Keeps, Same, Keeps-trans, option-Keeps, modify-Keeps, cancel-Keeps, send-Same,
}
use openfsd.Fsd.Server.Walks.{reply_error-Keeps}
use openfsd.Fsd.Server.Sent.{either-Keeps, ranged-Keeps}

module _ (env : Env) (laws : Laws env) where
  -- No box of a position that the packet gives has a corner that is not a number: such a corner is
  -- not equal to itself.
  pub record IsReal (packet : Bytes) : Type 0 where
    pub pilot_box :
        (lat lon : env.Float)
        → parse_lat_lon env packet 4 5 ≡ some (lat, lon)
        → let b = calculate_bounding_box env lat lon env.pilot_vis_range in box_eq env b b ≡ true
    pub atc_box :
        (lat lon range : env.Float)
        → parse_lat_lon env packet 5 6 ≡ some (lat, lon)
        → parse_vis_range env packet 3 ≡ some range
        → let b = calculate_bounding_box env lat lon range in box_eq env b b ≡ true

  update_position-Keeps :
      (id : ℕ) (lat lon range : env.Float) (w : World env)
      → (let b = calculate_bounding_box env lat lon range in box_eq env b b ≡ true)
      → Keeps env laws id w (update_position env id lat lon range w)
  unfolding update_position modify
  update_position-Keeps id lat lon range w real = record {
    consistent = λ ok reg. update_position-IsConsistent env laws id lat lon range w ok reg real;
    registered = λ c reg. ap₂ lookup (callsign_same c) map_same ∙ reg;
    ended = λ c d. inl (sym (done_same c) ∙ d);
    rated = rating_same;
    listed = map_same;
  }
    where
      callsign_same :
          (c : ℕ)
          → ((update_position env id lat lon range w).clients c).callsign ≡ (w.clients c).callsign
      callsign_same c = ground (arith, ==_iff c id)

      done_same :
          (c : ℕ) → ((update_position env id lat lon range w).clients c).done ≡ (w.clients c).done
      done_same c = ground (arith, ==_iff c id)

      rating_same :
          ((update_position env id lat lon range w).clients id).network_rating
          ≡ (w.clients id).network_rating
      rating_same = ground (arith, ==_iff id id)

      map_same : (update_position env id lat lon range w).client_map ≡ w.client_map
      map_same = ground arith

  Same-trans :
      {k k' k'' : Client env} → Same env laws k k' → Same env laws k' k'' → Same env laws k k''
  Same-trans s t = record {
    placed = record {
      callsign_eq = t.placed.callsign_eq ∙ s.placed.callsign_eq;
      box_same = t.placed.box_same ∙ s.placed.box_same;
      rating_eq = t.placed.rating_eq ∙ s.placed.rating_eq;
    };
    done_eq = t.done_eq ∙ s.done_eq;
  }

  plainly :
      {k k' : Client env}
      → k'.callsign ≡ k.callsign
      → box_of env k' ≡ box_of env k
      → k'.network_rating ≡ k.network_rating
      → k'.done ≡ k.done
      → Same env laws k k'
  plainly c b r d = record {
    placed = record { callsign_eq = c; box_same = b; rating_eq = r };
    done_eq = d;
  }

  switch-Same :
      (on : Bool) (k : Client env)
      → Same env laws k (send_send_fast_packet env on (record k { send_fast_enabled = on }))
  unfolding send_send_fast_packet
  switch-Same on k =
      let k' = record k { send_fast_enabled = on } in
      Same-trans (plainly {k = k} {k' = k'} refl refl refl refl) (send-Same env laws _ k')

  pick-Same :
      (k x y : Client env) (b : Bool)
      → Same env laws k x
      → Same env laws k y
      → Same env laws k (if b then x else y)
  pick-Same k x y true s t = s
  pick-Same k x y false s t = t

  unchanged : (k : Client env) → Same env laws k k
  unchanged k = plainly refl refl refl refl

  update_send_fast-Same : (k : Client env) → Same env laws k (update_send_fast env k)
  unfolding update_send_fast
  update_send_fast-Same k = search (pick-Same, unchanged, switch-Same)

  noted-Same :
      (now : ℕ) (packet : Bytes) (k : Client env)
      → Same env laws k (update_send_fast env (note_pilot env now packet k))
  noted-Same now packet k =
      let k' = note_pilot env now packet k in
      Same-trans (plainly {k = k} {k' = k'} refl refl refl refl) (update_send_fast-Same k')

  pub pilot_position-Keeps :
      (now id : ℕ) (packet : Bytes) (w : World env)
      → IsReal packet
      → Keeps env laws id w (handle_pilot_position env now id packet w)
  unfolding handle_pilot_position
  pilot_position-Keeps now id packet w real =
      option-Keeps env laws (parse_lat_lon env packet 4 5)
        (λ e. reply_error-Keeps env laws id _ _ w)
        (λ place e.
          Keeps-trans env laws
            (Keeps-trans env laws
              (update_position-Keeps id place.0 place.1 env.pilot_vis_range w
                (real.pilot_box place.0 place.1 e))
              (ranged-Keeps env laws id packet _))
            (modify-Keeps env laws id id (λ c. update_send_fast env (note_pilot env now packet c)) _
              (noted-Same now packet)))

  moved-Keeps :
      (now id : ℕ) (packet : Bytes) (w : World env)
      → IsReal packet
      → Keeps env laws id w (atc_move env now id packet w)
  moved-Keeps now id packet w real =
      option-Keeps env laws (parse_lat_lon env packet 5 6)
        (λ e. reply_error-Keeps env laws id _ _ w)
        (λ place e.
          option-Keeps env laws (parse_vis_range env packet 3)
            (λ f. reply_error-Keeps env laws id _ _ w)
            (λ range f.
              Keeps-trans env laws
                (Keeps-trans env laws
                  (update_position-Keeps id place.0 place.1 range w
                    (real.atc_box place.0 place.1 range e f))
                  (ranged-Keeps env laws id packet _))
                (modify-Keeps env laws id id (λ c. record c { last_updated = now }) _
                  (λ c. plainly refl refl refl refl))))

  pub atc_position-Keeps :
      (now id : ℕ) (packet : Bytes) (w : World env)
      → IsReal packet
      → Keeps env laws id w (handle_atc_position env now id packet w)
  unfolding handle_atc_position
  atc_position-Keeps now id packet w real =
      option-Keeps env laws (parse_int32 (get_field packet 2))
        (λ e. reply_error-Keeps env laws id _ _ w)
        (λ t e.
          either-Keeps env laws id w _ _
            (not (is_allowed_facility_type (w.clients id).network_rating t))
            (Keeps-trans env laws (reply_error-Keeps env laws id _ _ w)
              (cancel-Keeps env laws id id _ (inl refl)))
            (Keeps-trans env laws
              (modify-Keeps env laws id id (λ c. record c { facility_type = t }) w
                (λ c. plainly refl refl refl refl))
              (moved-Keeps now id packet _ real)))
