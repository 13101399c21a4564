-- ===== src/Fsd/Login/Needs.antt =====
-- fsd/conn.go: what a connection needs to come to its event loop.
use openfsd.Prelude.{
  ◌≤◌, ◌≡◌, inl, inr, sym, ◌∙◌, true, [], none, arith, length, length-map, ==_refl, Bool-cases,
  Option-cases,
}
use openfsd.Prelude.Bytes.{Bytes, bytes_eq}
use openfsd.Prelude.Int.{ℤ, ◌≤ℤ◌}
use openfsd.Callsign.{is_valid_client_callsign}
use openfsd.Callsign.Facility.{observer}
use openfsd.Db.Config.{get_welcome_message}
use openfsd.Fsd.Env.{Env}
use openfsd.Fsd.Client.{Client}
use openfsd.Fsd.PostOffice.{World, lookup, modify, register}
use openfsd.Fsd.Login.Read.{LoginData, accepted, read_login_packets}
use openfsd.Fsd.Login.Authenticate.{Backend}
use openfsd.Fsd.Login.Conn.{Arrival, welcome, motd, split_lines, new_client, admit}
use openfsd.Fsd.Login.Vouching.{Vouched, IsKnownSoftware}

module _ (env : Env) (backend : Backend) where
  -- What a connection needs in order to come to its event loop: two login packets that read as the
  -- data `d` and a token, a valid callsign that is free, software with a key, someone who vouches
  -- for the CID up to the rating `max`, a rating between Observer and `max`, and a socket that takes
  -- the whole message of the day.
  pub record MayEnter (a : Arrival env) (w : World env) (d : LoginData) (token : Bytes) (max : ℤ)
      : Type 0 where
    pub reads : read_login_packets a.now a.first a.second ≡ accepted d token
    pub named : is_valid_client_callsign d.callsign ≡ true
    pub software : IsKnownSoftware env backend d.client_challenge d.client_id
    pub vouched : Vouched backend a.now d.cid token max
    pub at_least : observer ≤ℤ d.network_rating
    pub at_most : d.network_rating ≤ℤ max
    pub free : lookup d.callsign w.client_map ≡ none
    pub told :
        length
          (motd env (new_client env d a.addr a.late_room) (get_welcome_message backend.settings))
        ≤ a.room

  pub length-motd : (c c' : Client env) (m : Bytes) → length (motd env c m) ≡ length (motd env c' m)
  unfolding motd
  length-motd c c' m = elim (Bool-cases (bytes_eq m [])) [
    | inl empty ↦ rw empty
    | inr some_text ↦
        rw some_text (length-map _ (split_lines m) ∙ sym (length-map _ (split_lines m)))
  ]

  pub admit_enters :
      (a : Arrival env) (c : Client env) (w : World env)
      → (admit env backend a c w).enters ≡ true
      → (lookup c.callsign w.client_map ≡ none)
        × (length (motd env c (get_welcome_message backend.settings)) ≤ a.room)
  unfolding admit register modify welcome
  admit_enters a c w h = elim (Option-cases (lookup c.callsign w.client_map)) [
    | inl gone ↦ (gone, ground (arith, gone, ==_refl a.id))
    | inr (other, there) ↦ absurd (ground (arith, there, ==_refl a.id))
  ]

  pub admit_lets_in :
      (a : Arrival env) (c : Client env) (w : World env)
      → lookup c.callsign w.client_map ≡ none
      → length (motd env c (get_welcome_message backend.settings)) ≤ a.room
      → (admit env backend a c w).enters ≡ true
  unfolding admit register modify welcome
  admit_lets_in a c w gone told = ground (arith, gone, ==_refl a.id)
