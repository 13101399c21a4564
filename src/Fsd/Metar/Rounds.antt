-- ===== src/Fsd/Metar/Rounds.antt =====
-- fsd/metar.go: what rounds of the workers do for a client.
use openfsd.Prelude.{
  ℕ, suc, ◌+◌, ◌*◌, ◌≡◌, refl, sym, ap, ◌∙◌, true, List, [], ◌∷◌, ◌++◌, map, arith, length,
  length-append, ==_iff, ==_refl, Bool-cases, inl, inr, ◌==◌, if◌then◌else◌,
}
use mathlib.Core.Path.{subst}
use mathlib.Core.List.Permᴰ
use mathlib.Core.List.{Permᴰ, append_assoc, append-nil, map-append}
use openfsd.Prelude.Bytes.{Bytes}
use openfsd.Fsd.Env.{Env}
use openfsd.Fsd.Client.{send, queues}
use openfsd.Fsd.PostOffice.{World, modify}
use openfsd.Fsd.Metar.{Fetched, metar_reply, serve_request, Service, Works, takes, answers}

-- The stations that a client asks for in a list of requests.
unfoldable pub asked : ℕ → List (ℕ × Bytes) → List Bytes
asked c [] = []
asked c ((id, icao) ∷ qs) = let rest = asked c qs in if id == c then icao ∷ rest else rest

asked-append : (c : ℕ) (xs ys : List (ℕ × Bytes)) → asked c (xs ++ ys) ≡ asked c xs ++ asked c ys
unfolding asked
asked-append c [] ys = refl
asked-append c ((id, icao) ∷ xs) ys = ground (arith, asked-append c xs ys)

module _ (env : Env) where
  -- The rounds that it takes to answer every request: two for one in the queue, one for one that a
  -- worker has.
  abbrev pub pending : Service env → ℕ
  pending s = length s.busy + 2 * length s.world.metar_requests

  -- The requests that are not answered.
  abbrev pub open_requests : Service env → List (ℕ × Bytes)
  open_requests s = s.busy ++ s.world.metar_requests

  -- A number of rounds one after the other.
  pub data Runs (workers : ℕ) : ℕ → Service env → Service env → Type 0 where
    none_yet : {s : Service env} → Runs workers 0 s s
    then_more :
        {n : ℕ} {s s' s'' : Service env}
        → Works env workers s s'
        → Runs workers n s' s''
        → Runs workers (suc n) s s''

  pub Works-pending :
      {workers : ℕ} {s s' : Service env} → Works env workers s s' → suc (pending s') ≡ pending s
  unfolding serve_request modify
  Works-pending (takes q rest e room) = let h = ap length e in omega arith
  Works-pending (answers before after q answer e) =
      let h = ap length e in
      omega (arith, length-append before (q ∷ after), length-append before after)

  pub Runs-pending :
      {workers n : ℕ} {s s' : Service env} → Runs workers n s s' → n + pending s' ≡ pending s
  Runs-pending none_yet = omega arith
  Runs-pending (then_more r rs) = let h = Runs-pending rs in let k = Works-pending r in omega arith

  module _ (c : ℕ) where
    -- The packets that answer requests of a client with this callsign.
    abbrev replies : Bytes → List (Bytes × Fetched) → List Bytes
    replies callsign rs = map (λ r. metar_reply env callsign r.0 r.1) rs

    -- What rounds leave alone of a client, and what they add: for some of its requests, each with an
    -- answer, the reply; the other requests are still open.
    pub record Served (s s' : Service env) : Type 0 where
      named : (s'.world.clients c).callsign ≡ (s.world.clients c).callsign
      listening : queues env (s'.world.clients c) ≡ queues env (s.world.clients c)
      pub replied : List (Bytes × Fetched)
      pub told :
          queues env (s.world.clients c) ≡ true
          → (s'.world.clients c).outbox
            ≡ (s.world.clients c).outbox ++ replies (s.world.clients c).callsign replied
      pub accounted :
          Permᴰ (map (λ r. r.0) replied ++ asked c (open_requests s')) (asked c (open_requests s))

    Served-refl : (s : Service env) → Served s s
    Served-refl s = record {
      named = refl;
      listening = refl;
      replied = [];
      told = λ _. sym (append-nil _);
      accounted = Permᴰ.refl _;
    }

    Served-trans : {s s' s'' : Service env} → Served s s' → Served s' s'' → Served s s''
    Served-trans {s} {s'} {s''} g h = record {
      named = h.named ∙ g.named;
      listening = h.listening ∙ g.listening;
      replied = g.replied ++ h.replied;
      told = λ listening.
          h.told (g.listening ∙ listening)
          ∙ ap (λ n. (s'.world.clients c).outbox ++ replies n h.replied) g.named
          ∙ ap (λ o. o ++ replies (s.world.clients c).callsign h.replied) (g.told listening)
          ∙ append_assoc (s.world.clients c).outbox (replies (s.world.clients c).callsign g.replied)
              (replies (s.world.clients c).callsign h.replied)
          ∙ ap (λ o. (s.world.clients c).outbox ++ o) (sym (map-append _ g.replied h.replied));
      accounted =
          subst (λ l. Permᴰ l (asked c (open_requests s)))
            (sym (
              ap (λ l. l ++ asked c (open_requests s'')) (map-append (λ r. r.0) g.replied h.replied)
              ∙ append_assoc (map (λ r. r.0) g.replied) (map (λ r. r.0) h.replied) _))
            (Permᴰ.trans (Permᴰ.append_left (map (λ r. r.0) g.replied) h.accounted) g.accounted);
    }

    -- The reply to a request, where it is the client's.
    own : ℕ × Bytes → Fetched → List (Bytes × Fetched)
    own (id, icao) answer = if id == c then (icao, answer) ∷ [] else []

    asked-own :
        (q : ℕ × Bytes) (answer : Fetched) (qs : List (ℕ × Bytes))
        → asked c (q ∷ qs) ≡ map (λ r. r.0) (own q answer) ++ asked c qs
    unfolding asked own
    asked-own (id, icao) answer qs = ground arith

    asked-middle :
        (q : ℕ × Bytes) (xs ys : List (ℕ × Bytes))
        → Permᴰ (asked c (xs ++ (q ∷ ys))) (asked c (q ∷ (xs ++ ys)))
    unfolding asked
    asked-middle (id, icao) xs ys = elim (Bool-cases (id == c)) [
      | inl same ↦
          subst (λ l. Permᴰ l (asked c ((id, icao) ∷ (xs ++ ys))))
            (sym (asked-append c xs ((id, icao) ∷ ys)))
            (rw (same, asked-append c xs ys) (Permᴰ.middle icao (asked c xs) (asked c ys)))
      | inr other ↦
          subst (λ l. Permᴰ l (asked c ((id, icao) ∷ (xs ++ ys))))
            (sym (asked-append c xs ((id, icao) ∷ ys)))
            (rw (other, asked-append c xs ys) (Permᴰ.refl (asked c xs ++ asked c ys)))
    ]

    served_one :
        (q : ℕ × Bytes) (answer : Fetched) (w : World env)
        → (((serve_request env q answer w).clients c).callsign ≡ (w.clients c).callsign)
          × (queues env ((serve_request env q answer w).clients c) ≡ queues env (w.clients c))
          × (queues env (w.clients c) ≡ true
              → ((serve_request env q answer w).clients c).outbox
                ≡ (w.clients c).outbox ++ replies (w.clients c).callsign (own q answer))
    unfolding serve_request modify send own
    served_one (id, icao) answer w = (
      ground (arith, ==_iff c id),
      ground (arith, ==_iff c id),
      λ listening. elim (Bool-cases (c == id)) [
        | inl same ↦ subst (Told listening) ((==_iff c id).0 same) (told_self listening)
        | inr other ↦ ground (arith, other, ==_iff id c, append-nil (w.clients c).outbox)
      ],
    )
      where
        Told : queues env (w.clients c) ≡ true → ℕ → Type 0
        Told h i =
            ((serve_request env (i, icao) answer w).clients c).outbox
            ≡ (w.clients c).outbox ++ replies (w.clients c).callsign (own (i, icao) answer)

        told_self : (h : queues env (w.clients c) ≡ true) → Told h c
        told_self h = ground (arith, ==_refl c, h)

    answered :
        (before after : List (ℕ × Bytes)) (q : ℕ × Bytes) (answer : Fetched)
        (busy queue : List (ℕ × Bytes))
        → busy ≡ before ++ (q ∷ after)
        → Permᴰ
            (map (λ r. r.0) (own q answer) ++ asked c ((before ++ after) ++ queue))
            (asked c (busy ++ queue))
    answered before after q answer busy queue e =
        subst (λ l. Permᴰ l (asked c (busy ++ queue)))
          (asked-own q answer (before ++ (after ++ queue))
            ∙ ap (λ l. map (λ r. r.0) (own q answer) ++ asked c l)
                (sym (append_assoc before after queue)))
          (subst (λ l. Permᴰ (asked c (q ∷ (before ++ (after ++ queue)))) (asked c l))
            (sym (ap (λ l. l ++ queue) e ∙ append_assoc before (q ∷ after) queue))
            (Permᴰ.symm (asked-middle q before (after ++ queue))))

    Works-Served : {workers : ℕ} {s s' : Service env} → Works env workers s s' → Served s s'
    unfolding serve_request modify
    Works-Served {s = s} (takes q rest e room) = record {
      named = refl;
      listening = refl;
      replied = [];
      told = λ _. sym (append-nil _);
      accounted =
          subst (λ l. Permᴰ (asked c (q ∷ (s.busy ++ rest))) (asked c (s.busy ++ l))) (sym e)
            (Permᴰ.symm (asked-middle q s.busy rest));
    }
    Works-Served {s = s} (answers before after q answer e) =
        let (named, listening, told) = served_one q answer s.world in
        record {
          named = named;
          listening = listening;
          replied = own q answer;
          told = told;
          accounted = answered before after q answer s.busy s.world.metar_requests e;
        }

    pub Runs-Served : {workers n : ℕ} {s s' : Service env} → Runs workers n s s' → Served s s'
    Runs-Served {s = s} none_yet = Served-refl s
    Runs-Served (then_more r rs) = Served-trans (Works-Served r) (Runs-Served rs)
