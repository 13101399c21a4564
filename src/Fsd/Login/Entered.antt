-- ===== src/Fsd/Login/Entered.antt =====
-- fsd/conn.go: which connections come to their event loop.
use openfsd.Prelude.{
  ℕ, ◌≤◌, ◌≡◌, ◌↔◌, inl, inr, refl, sym, ap, ◌∙◌, true, [], none, some, arith, Bool-cases,
  Option-cases,
}
use mathlib.Core.Path.{subst}
use openfsd.Prelude.Bytes.{Bytes, codes, bytes_eq, bytes_eq_iff}
use openfsd.Prelude.Int.{ℤ, ◌≤ℤ◌, eqb_ℤ, eqb_ℤ_iff}
use openfsd.Callsign.{is_valid_client_callsign}
use openfsd.Callsign.Facility.{observer}
use openfsd.Db.Users.{get_user_by_cid}
use openfsd.Db.Config.{get_welcome_message}
use openfsd.Fsd.Env.{Env}
use openfsd.Fsd.Client.{Client}
use openfsd.Fsd.Auth.{auth_key, initialize}
use openfsd.Fsd.PostOffice.{World, lookup}
use openfsd.Fsd.Login.Read.{LoginData, Reading, refused, accepted, read_login_packets}
use openfsd.Fsd.Login.Authenticate.{
  Authentication, denied, granted, Backend, check_claims, authenticate_token, authenticate_password,
  check_software, authenticate_with, attempt_authentication,
}
use openfsd.Fsd.Login.Conn.{
  Arrival, new_client, admit, open_data, open_read, open_authenticated, open_conn,
}
use openfsd.Fsd.Login.Vouching.{
  Vouched, by_password, by_token, Granted, IsKnownSoftware, check_rating_grants, software_known,
  software_same, granted_by_either,
}
use openfsd.Fsd.Login.Needs.{MayEnter, length-motd, admit_enters, admit_lets_in}

module _ (env : Env) (backend : Backend) where
  module _ (a : Arrival env) (w : World env) where
    Enters : Type 0
    Enters = (d : LoginData) × (token : Bytes) × (max : ℤ) × MayEnter env backend a w d token max

    abbrev fresh_client : LoginData → Client env
    fresh_client d = new_client env d a.addr a.late_room

    entered_granted :
        (d : LoginData) (token : Bytes) (c c' : Client env)
        → read_login_packets a.now a.first a.second ≡ accepted d token
        → is_valid_client_callsign d.callsign ≡ true
        → check_software env backend (fresh_client d) ≡ granted c
        → authenticate_with env backend a.now token (granted c) ≡ granted c'
        → (admit env backend a c' w).enters ≡ true
        → Enters
    unfolding Enters
    entered_granted d token c c' reads named soft auth h =
        let (callsign_same, cid_same, rating_same, _) =
          software_same env backend (fresh_client d) c soft in
        let g : Granted env backend a.now token c c' =
          granted_by_either env backend a.now token c c' auth in
        let (free, told) = admit_enters env backend a c' w h in
        let same : c'.callsign ≡ d.callsign = g.same_callsign ∙ callsign_same in
        (
          d,
          token,
          c'.max_network_rating,
          record {
            reads = reads;
            named = named;
            software = software_known env backend (fresh_client d) c soft;
            vouched =
                subst (λ i. Vouched backend a.now i token c'.max_network_rating) cid_same g.vouched;
            at_least = subst (λ r. observer ≤ℤ r) rating_same g.at_least;
            at_most = subst (λ r. r ≤ℤ c'.max_network_rating) rating_same g.at_most;
            free = subst (λ n. lookup n w.client_map ≡ none) same free;
            told =
                subst (λ n. n ≤ a.room)
                  (length-motd env backend c' (fresh_client d)
                    (get_welcome_message backend.settings))
                  told;
          },
        )

    entered_software :
        (d : LoginData) (token : Bytes) (s r : Authentication env)
        → read_login_packets a.now a.first a.second ≡ accepted d token
        → is_valid_client_callsign d.callsign ≡ true
        → check_software env backend (fresh_client d) ≡ s
        → authenticate_with env backend a.now token s ≡ r
        → (open_authenticated env backend a w r).enters ≡ true
        → Enters
    entered_software d token (denied e) (granted c') reads named soft auth h = absurd (cc)
    entered_software d token (granted c) (granted c') reads named soft auth h =
        entered_granted d token c c' reads named soft auth h
    entered_software d token s (denied none) reads named soft auth h = absurd (cc)
    entered_software d token s (denied (some e)) reads named soft auth h = absurd (cc)

    entered_read :
        (r : Reading)
        → read_login_packets a.now a.first a.second ≡ r
        → (open_read env backend a w r).enters ≡ true
        → Enters
    unfolding open_data attempt_authentication
    entered_read (refused code message) reads h = absurd (cc)
    entered_read (accepted d token) reads h =
        elim (Bool-cases (is_valid_client_callsign d.callsign)) [
          | inl named ↦
              entered_software d token (check_software env backend (fresh_client d))
                (attempt_authentication env backend a.now token (fresh_client d)) reads named refl
                refl (ground (arith, named))
          | inr bad ↦ absurd (ground (arith, bad))
        ]

  grants_software :
      (c : Client env)
      → IsKnownSoftware env backend c.client_challenge c.client_id
      → (c' : Client env) × (check_software env backend c ≡ granted c')
  unfolding check_software
  grants_software c (inl empty) = (c, ground (arith, bytes_eq_iff c.client_challenge []))
  grants_software c (inr keyed) = elim (Bool-cases (bytes_eq c.client_challenge [])) [
    | inl empty ↦ (c, ground (arith, empty))
    | inr sent ↦ elim (Option-cases (initialize env.md5 c.client_id c.client_challenge)) [
      | inl no_state ↦ absurd (no_key no_state)
      | inr (s, state) ↦ (record c { auth_state = s }, ground (arith, sent, state))
    ]
  ]
    where
      no_key : ¬ (initialize env.md5 c.client_id c.client_challenge ≡ none)
      no_key e = elim (Option-cases (auth_key c.client_id)) [
        | inl none_there ↦ keyed none_there
        | inr (key, there) ↦ absurd (unfold initialize in ground (arith, e, there))
      ]

  pub granted-Vouched :
      (now : ℕ) (c : Client env) (cid rating : ℤ) (token : Bytes) (max : ℤ)
      → c.cid ≡ cid
      → c.network_rating ≡ rating
      → observer ≤ℤ rating
      → rating ≤ℤ max
      → Vouched backend now cid token max
      → authenticate_with env backend now token (granted c)
        ≡ granted (record c { max_network_rating = max })
  unfolding authenticate_password authenticate_token check_claims
  granted-Vouched now c cid rating token max p q low high (by_password user n row fits m) =
      let grants =
        check_rating_grants env max c (subst (λ r. observer ≤ℤ r) (sym q) low)
          (subst (λ r. r ≤ℤ max) (sym q) high) in
      let row' = ap (λ i. get_user_by_cid i backend.users) p ∙ row in
      rw (n, authenticate_password, row', fits, m) grants
  granted-Vouched now c cid rating token max p q low high
        (by_token secret claims y got parsed kind same m) =
      let grants =
        check_rating_grants env max c (subst (λ r. observer ≤ℤ r) (sym q) low)
          (subst (λ r. r ≤ℤ max) (sym q) high) in
      let equal : eqb_ℤ c.cid claims.fields.cid ≡ true = (eqb_ℤ_iff _ _).1 (p ∙ same) in
      let fsd : bytes_eq claims.fields.token_type (codes "fsd") ≡ true =
        (bytes_eq_iff _ _).1 kind in
      rw (y, authenticate_token, got, parsed, check_claims, fsd, equal, m) grants

  -- A connection comes to its event loop exactly when its two login packets read as login data with
  -- a token, its callsign is valid and not in use, its software has a key if it sent a challenge,
  -- the database or an FSD token vouches for its CID, its rating lies between Observer and the one
  -- vouched for, and its socket takes the message of the day.
  pub open_conn-enters_iff :
      (a : Arrival env) (w : World env)
      → ((open_conn env backend a w).enters ≡ true)
        ↔ ((d : LoginData) × (token : Bytes) × (max : ℤ) × MayEnter env backend a w d token max)
  unfolding open_conn open_data attempt_authentication Enters
  open_conn-enters_iff a w = (entered_read a w _ refl, lets_in)
    where
      lets_in : Enters a w → (open_conn env backend a w).enters ≡ true
      lets_in (d, token, max, m) =
          let c : Client env = new_client env d a.addr a.late_room in
          let (c', soft) = grants_software c m.software in
          let (callsign_same, cid_same, rating_same, _) = software_same env backend c c' soft in
          let auth =
            granted-Vouched a.now c' d.cid d.network_rating token max cid_same rating_same
              m.at_least m.at_most m.vouched in
          let inside =
            admit_lets_in env backend a (record c' { max_network_rating = max }) w
              (ap (λ n. lookup n w.client_map) callsign_same ∙ m.free)
              (subst (λ n. n ≤ a.room)
                (length-motd env backend c (record c' { max_network_rating = max })
                  (get_welcome_message backend.settings))
                m.told) in
          rw (m.reads, m.named, soft, auth) inside
