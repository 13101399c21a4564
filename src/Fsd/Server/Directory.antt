-- ===== src/Fsd/Server/Directory.antt =====
-- fsd/postoffice.go: what the post office promises, as a directory of callsigns that forgets the map's
-- order, the tree and all else, and the server's steps as changes of it.
use openfsd.Prelude.{
  ℕ, ◌≡◌, refl, ap, ◌∙◌, Option, none, some, arith, Option-cases, inl, inr, ==_refl, if◌then◌else◌,
}
use openfsd.Prelude.Bytes.{Bytes, bytes_eq, bytes_eq_iff}
use openfsd.Fsd.Env.{Env, Laws}
use openfsd.Fsd.Client.{Client}
use openfsd.Fsd.PostOffice.{World, lookup, find, modify, register, release}
use openfsd.Fsd.PostOffice.Invariant.{lookup-without}
use openfsd.Fsd.Server.Sent.{all-Keeps}
use openfsd.Fsd.Server.Packets.{on_packet-Keeps}
use openfsd.Fsd.Server.Steps.{
  Step, arrives, sends, tells, kicks, leaves, Reachable, start, next, arrive,
}

-- Who has a callsign.
abbrev pub Directory : Type 0
Directory = Bytes → Option ℕ

pub data Change : Type 0 where
  enters : Bytes → ℕ → Change
  exits : Bytes → Change
  stays : Change

-- The first to take a callsign keeps it.
abbrev pub or_taken : Option ℕ → ℕ → Option ℕ
or_taken none id = some id
or_taken (some other) id = some other

unfoldable pub apply : Change → Directory → Directory
apply (enters callsign id) d n = if bytes_eq callsign n then or_taken (d n) id else d n
apply (exits callsign) d n = if bytes_eq callsign n then none else d n
apply stays d n = d n

apply_pointwise : (c : Change) (d e : Directory) (n : Bytes) → d n ≡ e n → apply c d n ≡ apply c e n
unfolding apply
apply_pointwise (enters k id) d e n h = ap (λ o. if bytes_eq k n then or_taken o id else o) h
apply_pointwise (exits k) d e n h = ap (λ o. if bytes_eq k n then none else o) h
apply_pointwise stays d e n h = h

module _ (env : Env) (laws : Laws env) where
  unfoldable pub change_of : {w w' : World env} → Step env laws w w' → Change
  change_of (arrives id k fresh real) = enters k.callsign id
  change_of (sends now id packet reg real) = stays
  change_of (tells id packet reg) = stays
  change_of (kicks id reg) = stays
  change_of {w} (leaves id reg) = exits (w.clients id).callsign

  -- The history of a state, applied to the empty directory.
  unfoldable pub replay : {w : World env} → Reachable env laws w → Directory
  unfolding change_of apply
  replay (start no_map no_tree) n = none
  replay (next r s) n = apply (change_of s) (replay r) n

  arrive-find :
      (id : ℕ) (k : Client env) (w : World env) (n : Bytes)
      → find env n (arrive env laws id k w) ≡ apply (enters k.callsign id) (λ m. find env m w) n
  unfolding find register modify lookup apply
  arrive-find id k w n = elim (Option-cases (lookup k.callsign w.client_map)) [
    | inl free ↦ ground (arith, free, ==_refl id, bytes_eq_iff k.callsign n)
    | inr (other, taken) ↦ ground (arith, taken, ==_refl id, bytes_eq_iff k.callsign n)
  ]

  same_map :
      (n : Bytes) (w w' : World env) → w'.client_map ≡ w.client_map → find env n w' ≡ find env n w
  unfolding find
  same_map n w w' e = ap (lookup n) e

  find-Step :
      {w w' : World env} (s : Step env laws w w') (n : Bytes)
      → find env n w' ≡ apply (change_of s) (λ m. find env m w) n
  unfolding change_of apply
  find-Step {w} (arrives id k fresh real) n = arrive-find id k w n
  find-Step {w} (sends now id packet reg real) n =
      same_map n w _ (on_packet-Keeps env laws now id packet w real).listed
  find-Step {w} (tells id packet reg) n = same_map n w _ (all-Keeps env laws id packet w).listed
  find-Step {w} (kicks id reg) n = unfold modify in same_map n w _ refl
  find-Step {w} (leaves id reg) n =
      unfold find release in lookup-without (w.clients id).callsign n w.client_map

  -- After any history of connections, packets, broadcasts, kicks and departures, looking up a callsign
  -- gives exactly what the history gives as a directory: the address of the one who took it first and
  -- has not left since, or nothing.
  pub find-replay :
      (w : World env) (r : Reachable env laws w) (n : Bytes) → find env n w ≡ replay r n
  unfolding replay find lookup
  find-replay w (start no_map no_tree) n = ap (lookup n) no_map
  find-replay w (next {w = v} r s) n =
      find-Step s n
      ∙ apply_pointwise (change_of s) (λ m. find env m v) (replay r) n (find-replay v r n)
