-- ===== src/Transport/Paging.antt =====
-- packages/bridge/src/session-events/canonical-event-transport.ts: the loops over a page and over the
-- buffered records.
use pi_mob.Prelude.{
  ℕ, ◌+◌, ◌≤◌, ◌≡◌, refl, true, ◌&&◌, List, [], ◌∷◌, arith, ltb, leb, le→leb, ◌==◌, every, length,
  length-append, sort_by, sort_by-All, Result, ok, err, Run, Run-append, All, All-map, Bool-cases,
  ◌⊎◌, inl, inr, subst, sym, min,
}
use pi_mob.Tables.{CanonicalRecord}
use pi_mob.Transport.{Page, is_over, taken, replay_page, drain, drain_short, is_complete}

-- The page holds the records behind a sequence up to its cursor, each once and in order.
abbrev pub IsPage : ℕ → Page → Type 0
IsPage n p = Run (λ r. r.sequence) n p.replay × (n + length p.replay ≡ p.cursor)

module _ (bytes : CanonicalRecord → ℕ) (batch limit : ℕ) where
  taken-IsPage :
      (n : ℕ) (p : Page) (r : CanonicalRecord)
      → IsPage n p
      → r.sequence ≡ p.cursor + 1
      → IsPage n (taken bytes batch limit p r)
  taken-IsPage n p r (run, count) at = (
    Run-append (λ q. q.sequence) n p.replay (r ∷ []) run (omega arith, tt),
    omega (arith, length-append p.replay (r ∷ [])),
  )

  -- What the loop over the durable page makes of records in order.
  abbrev pub Replayed : ℕ → Page → List CanonicalRecord → Result Page Page → Type 0
  Replayed n p rs (err q) = ⊥
  Replayed n p rs (ok q) = IsPage n q × (p.cursor ≤ q.cursor) × (q.cursor ≤ p.cursor + length rs)

  replay_page-Replayed :
      (n : ℕ) (p : Page) (rs : List CanonicalRecord)
      → IsPage n p
      → Run (λ r. r.sequence) p.cursor rs
      → Replayed n p rs (replay_page bytes batch limit p rs)
  unfolding replay_page
  replay_page-Replayed n p [] h run = (h, omega arith, omega arith)
  replay_page-Replayed n p (r ∷ rs) h (at, run) =
      let next : (r.sequence == p.cursor + 1) ≡ true = ground (arith, at) in
      let ih =
        replay_page-Replayed n (taken bytes batch limit p r) rs (taken-IsPage n p r h at)
          (subst (λ m. Run (λ q. q.sequence) m rs) (sym at) run) in
      elim (Bool-cases (is_over bytes batch limit p r)) [
        | inl e ↦ rw (next, e) (h, omega arith, omega arith)
        | inr e ↦
            rw (next, e) (wider (replay_page bytes batch limit (taken bytes batch limit p r) rs) ih)
      ]
    where
      wider :
          (o : Result Page Page)
          → Replayed n (taken bytes batch limit p r) rs o
          → Replayed n p (r ∷ rs) o
      wider (ok q) (k, low, high) = (k, omega arith, omega arith)
      wider (err q) k = k

  abbrev pub start : ℕ → Page
  start n = record { cursor = n; replay = []; replay_bytes = 0 }

  -- The loop from its start: the first record is always taken.
  abbrev pub FirstReplayed : ℕ → List CanonicalRecord → Result Page Page → Type 0
  FirstReplayed n rs (err q) = ⊥
  FirstReplayed n rs (ok q) =
      IsPage n q × (n + min 1 (length rs) ≤ q.cursor) × (q.cursor ≤ n + length rs)

  pub replay_page-first :
      (n : ℕ) (rs : List CanonicalRecord)
      → Run (λ r. r.sequence) n rs
      → FirstReplayed n rs (replay_page bytes batch limit (start n) rs)
  unfolding replay_page
  replay_page-first n [] run = ((tt, omega arith), omega arith, omega arith)
  replay_page-first n (r ∷ rs) (at, run) =
      let next : (r.sequence == n + 1) ≡ true = ground (arith, at) in
      rw next (
        go (replay_page bytes batch limit (taken bytes batch limit (start n) r) rs) (
          replay_page-Replayed n (taken bytes batch limit (start n) r) rs
            (taken-IsPage n (start n) r (tt, omega arith) at)
            (subst (λ m. Run (λ q. q.sequence) m rs) (sym at) run)))
    where
      go :
          (o : Result Page Page)
          → Replayed n (taken bytes batch limit (start n) r) rs o
          → FirstReplayed n (r ∷ rs) o
      go (ok q) (k, low, high) = (k, omega arith, omega arith)
      go (err q) k = k

  drain-none :
      (p : Page) (rs : List CanonicalRecord)
      → All (λ r. r.sequence ≤ p.cursor) rs
      → drain bytes batch limit p rs ≡ ok (p, [])
  unfolding drain
  drain-none p [] h = refl
  drain-none p (r ∷ rs) h = rw (le→leb r.sequence p.cursor h.0) (drain-none p rs h.1)

  every-below :
      (n : ℕ) (rs : List CanonicalRecord)
      → All (λ r. r.sequence ≤ n) rs
      → every (λ r. leb r.sequence n) rs ≡ true
  every-below n [] h = refl
  every-below n (r ∷ rs) h = rw (le→leb r.sequence n h.0) (every-below n rs h.1)

  -- Where every buffered record is in the log, what is left of the buffer is none, or all if the page
  -- did not reach the end.
  pub drain_short-cases :
      (p : Page) (n latest : ℕ) (pending : List CanonicalRecord)
      → All (λ r. r.sequence ≤ latest) pending
      → ((length p.replay == n) && ltb (length p.replay) batch ≡ true → latest ≤ p.cursor)
      → (drain_short bytes batch limit p n pending ≡ ok (p, []))
        ⊎ (drain_short bytes batch limit p n pending ≡ ok (p, pending))
  unfolding drain_short
  drain_short-cases p n latest pending h k =
      elim (Bool-cases ((length p.replay == n) && ltb (length p.replay) batch)) [
        | inl e ↦ inl (
            rw e (
              drain-none p (sort_by (λ r. r.sequence) pending) (
                sort_by-All (λ r. r.sequence) (λ r. r.sequence ≤ p.cursor) pending
                  (All-map (λ r l. omega (arith, l, k e)) pending h))))
        | inr e ↦ inr (rw e refl)
      ]

  -- A replay is complete exactly if it reached the last sequence.
  pub is_complete-exact :
      (p : Page) (pending : List CanonicalRecord) (latest : ℕ)
      → All (λ r. r.sequence ≤ latest) pending
      → is_complete bytes batch limit p pending latest ≡ leb latest p.cursor
  unfolding is_complete
  is_complete-exact p pending latest h = elim (Bool-cases (leb latest p.cursor)) [
    | inl e ↦
        rw (e, every-below p.cursor pending (All-map (λ r l. ground (arith, l, e)) pending h)) refl
    | inr e ↦ rw e (ground arith)
  ]
