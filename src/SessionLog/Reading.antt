-- ===== src/SessionLog/Reading.antt =====
-- packages/bridge/src/session-events/canonical-session-store.ts: reading a sequenced log.
use pi_mob.Prelude.{
  ℕ, zero, suc, ◌+◌, ◌-◌, ◌≤◌, ◌≡◌, ◌&&◌, some, List, [], ◌∷◌, arith, ltb, ◌==◌, keep, sort_by,
  take, length, length-take, min, Run, Run-IsSorted, sort_by-sorted, keep-keep, keep-Run, ap, ◌∙◌,
}
use pi_mob.Tables.{CanonicalRecord}
use pi_mob.Store.{Store}
use pi_mob.SessionLog.{events_of, latest_sequence, read_after, max_limit}
use pi_mob.SessionLog.Sequenced.{IsSequenced}

Run-take :
    (n : ℕ) (k : ℕ) (rs : List CanonicalRecord)
    → Run (λ r. r.sequence) n rs
    → Run (λ r. r.sequence) n (take k rs)
Run-take n zero rs h = tt
Run-take n (suc k) [] h = tt
Run-take n (suc k) (r ∷ rs) h = (h.0, Run-take (n + 1) k rs h.1)

module _ (s : Store) (c : IsSequenced s) (session after : ℕ)
    (low : after ≤ latest_sequence s session) where
  rest : List CanonicalRecord
  rest = keep (λ r. ltb after r.sequence) (events_of session s.canonical)

  rest-Run : Run (λ r. r.sequence) after rest × (after + length rest ≡ latest_sequence s session)
  unfolding rest
  rest-Run =
      let k =
        keep-Run (λ r. r.sequence) 0 after (events_of session s.canonical) (omega arith)
          (omega (arith, c.count session)) (c.run session) in
      (k.0, k.1 ∙ omega (arith, c.count session))

  sorted-rest :
      sort_by
        (λ r. r.sequence)
        (keep (λ r. r.session_id == session && ltb after r.sequence) s.canonical)
      ≡ rest
  unfolding rest
  sorted-rest =
      ap (sort_by (λ r. r.sequence))
        (keep-keep (λ r. r.session_id == session) (λ r. ltb after r.sequence) s.canonical)
      ∙ sort_by-sorted (λ r. r.sequence) rest (Run-IsSorted (λ r. r.sequence) after rest rest-Run.0)

  -- On a sequenced log, a read behind a sequence that is not beyond the last one gives the next
  -- records, each once and in order: as many as there are, or as the limit, capped at 4096.
  pub read_after-Run :
      (limit : ℕ)
      → Run (λ r. r.sequence) after (read_after s session after (some limit))
        × (length (read_after s session after (some limit))
            ≡ min (min limit max_limit) (latest_sequence s session - after))
  unfolding read_after
  read_after-Run limit = rw sorted-rest (
    Run-take after (min limit max_limit) rest rest-Run.0,
    length-take (min limit max_limit) rest
        ∙ ap (min (min limit max_limit)) (omega (arith, rest-Run.1)),
  )
