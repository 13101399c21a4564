-- ===== src/Fsd/Metar/Served.antt =====
-- fsd/metar.go: every request is answered, whatever the order of the workers' rounds.
use openfsd.Prelude.{
  ℕ, ◌≤◌, ◌≡◌, ◌≢◌, refl, ap, ◌∙◌, true, List, [], ◌∷◌, ◌++◌, map, arith, length, ==_iff,
  Bool-cases, inl, inr, ◌==◌,
}
use mathlib.Core.Path.{subst}
use mathlib.Core.List.{Permᴰ, append-nil}
use openfsd.Prelude.Bytes.{Bytes}
use openfsd.Fsd.Env.{Env}
use openfsd.Fsd.Client.{queues}
use openfsd.Fsd.Metar.{Fetched, unreachable, metar_reply, Service, Works, takes, answers}
use openfsd.Fsd.Metar.Rounds.{
  asked, pending, open_requests, Runs, Runs-pending, Served, Runs-Served,
}

module _ (env : Env) where
  -- While a request is open there is a next round.
  progress :
      (workers : ℕ) (s : Service env)
      → 1 ≤ workers
      → pending env s ≢ 0
      → (s' : Service env) × Works env workers s s'
  progress workers s one more = go s.busy s.world.metar_requests refl refl
    where
      go :
          (busy queue : List (ℕ × Bytes))
          → s.busy ≡ busy
          → s.world.metar_requests ≡ queue
          → (s' : Service env) × Works env workers s s'
      go (q ∷ busy) queue b e = (_, answers [] busy q unreachable b)
      go [] (q ∷ queue) b e = (_, takes q queue e (omega (arith, ap length b)))
      go [] [] b e = absurd (more (omega (arith, ap length b, ap length e)))

  nothing_left :
      (s : Service env) → pending env s ≡ 0 → (s.world.metar_requests ≡ []) × (s.busy ≡ [])
  nothing_left s h = (nil_of s.world.metar_requests (omega arith), nil_of s.busy (omega arith))
    where
      nil_of : (qs : List (ℕ × Bytes)) → length qs ≡ 0 → qs ≡ []
      nil_of [] e = refl
      nil_of (q ∷ qs) e = absurd (omega arith)

-- Whatever the order of the rounds of one worker or more: a run that cannot go on has as many rounds
-- as were pending, leaves no request open, and behind what it was sent before, a client whose packets
-- are queued has been sent one reply to each of its requests, in some order.
pub serve_all_answers :
    (env : Env) (c workers n : ℕ) (s s' : Service env)
    → 1 ≤ workers
    → Runs env workers n s s'
    → ((s'' : Service env) → ¬ Works env workers s' s'')
    → queues env (s.world.clients c) ≡ true
    → (n ≡ pending env s)
      × (s'.world.metar_requests ≡ [])
      × (s'.busy ≡ [])
      × ((replied : List (Bytes × Fetched)) × ((s'.world.clients c).outbox
            ≡ (s.world.clients c).outbox
              ++ map (λ r. metar_reply env (s.world.clients c).callsign r.0 r.1) replied)
          × Permᴰ (map (λ r. r.0) replied) (asked c (open_requests env s)))
unfolding asked
serve_all_answers env c workers n s s' one rs stuck listening =
    let served : Served env c s s' = Runs-Served env c rs in
    let over : pending env s' ≡ 0 = elim (Bool-cases (pending env s' == 0)) [
      | inl over ↦ (==_iff (pending env s') 0).0 over
      | inr more ↦
          let (next, r) = progress env workers s' one (λ e. absurd (ground (arith, e, more))) in
          absurd (stuck next r)
    ] in
    let (queue, busy) = nothing_left env s' over in
    (
      omega (arith, Runs-pending env rs),
      queue,
      busy,
      (
        served.replied,
        served.told listening,
        subst (λ l. Permᴰ l (asked c (open_requests env s)))
            (ap (λ l. map (λ r. r.0) served.replied ++ asked c l)
                (ap (λ b. b ++ s'.world.metar_requests) busy ∙ queue)
              ∙ append-nil (map (λ r. r.0) served.replied))
            served.accounted,
      ),
    )
