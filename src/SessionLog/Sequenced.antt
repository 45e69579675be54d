-- ===== src/SessionLog/Sequenced.antt =====
-- packages/bridge/src/session-events/canonical-session-store.ts: the sequences of each session count
-- its events.
use pi_mob.Prelude.{
  ℕ, ◌+◌, ◌≡◌, refl, true, false, List, [], ◌∷◌, ◌++◌, arith, ◌==◌, ==_iff, ==_refl, first, has,
  update, length, length-append, Run, Run-append, Bool-cases, inl, inr, subst, sym, ap, ◌∙◌,
}
use pi_mob.Tables.{CanonicalRecord}
use pi_mob.Store.{Store}
use pi_mob.Store.Transactions.{IsDurable}
use pi_mob.SessionLog.{events_of, or_zero, latest_sequence, bump_sequence}

-- A session's events carry the sequences from 1 to its last one, each once and in order.
pub record IsSequenced (s : Store) : Type 0 where
  pub run : (session : ℕ) → Run (λ r. r.sequence) 0 (events_of session s.canonical)
  pub count : (session : ℕ) → length (events_of session s.canonical) ≡ latest_sequence s session

pub IsSequenced-IsDurable : IsDurable IsSequenced
IsSequenced-IsDurable s published collecting w c = record { run = c.run; count = c.count }

first-bump_same :
    (session : ℕ) (ps : List (ℕ × ℕ))
    → has (λ p. p.0 == session) ps ≡ true
    → or_zero (first (λ p. p.0 == session) (update (λ p. p.0 == session) (λ p. (p.0, p.1 + 1)) ps))
      ≡ or_zero (first (λ p. p.0 == session) ps) + 1
first-bump_same session [] h = cc
first-bump_same session ((k, n) ∷ ps) h = ground (arith, first-bump_same session ps)

first-bump_other :
    (session other : ℕ) (ps : List (ℕ × ℕ))
    → (session == other) ≡ false
    → first (λ p. p.0 == other) (update (λ p. p.0 == session) (λ p. (p.0, p.1 + 1)) ps)
      ≡ first (λ p. p.0 == other) ps
first-bump_other session other [] h = refl
first-bump_other session other ((k, n) ∷ ps) h =
    ground (arith, h, first-bump_other session other ps h)

first-snoc_same :
    (session : ℕ) (ps : List (ℕ × ℕ))
    → has (λ p. p.0 == session) ps ≡ false
    → or_zero (first (λ p. p.0 == session) (ps ++ ((session, 1) ∷ [])))
      ≡ or_zero (first (λ p. p.0 == session) ps) + 1
first-snoc_same session [] h = rw (==_refl session) refl
first-snoc_same session ((k, n) ∷ ps) h = ground (arith, h, first-snoc_same session ps)

first-snoc_other :
    (session other : ℕ) (ps : List (ℕ × ℕ))
    → (session == other) ≡ false
    → first (λ p. p.0 == other) (ps ++ ((session, 1) ∷ [])) ≡ first (λ p. p.0 == other) ps
first-snoc_other session other [] h = rw h refl
first-snoc_other session other ((k, n) ∷ ps) h = ground (arith, first-snoc_other session other ps h)

pub latest-bump_same :
    (session : ℕ) (s : Store)
    → latest_sequence (bump_sequence session s) session ≡ latest_sequence s session + 1
latest-bump_same session s = elim (Bool-cases (has (λ p. p.0 == session) s.sequences)) [
  | inl e ↦ rw e (first-bump_same session s.sequences e)
  | inr e ↦ rw e (first-snoc_same session s.sequences e)
]

pub latest-bump_other :
    (session other : ℕ) (s : Store)
    → (session == other) ≡ false
    → latest_sequence (bump_sequence session s) other ≡ latest_sequence s other
latest-bump_other session other s h = elim (Bool-cases (has (λ p. p.0 == session) s.sequences)) [
  | inl e ↦ rw e (ap or_zero (first-bump_other session other s.sequences h))
  | inr e ↦ rw e (ap or_zero (first-snoc_other session other s.sequences h))
]

events_of-snoc_same :
    (session : ℕ) (rs : List CanonicalRecord) (r : CanonicalRecord)
    → (r.session_id == session) ≡ true
    → events_of session (rs ++ (r ∷ [])) ≡ events_of session rs ++ (r ∷ [])
events_of-snoc_same session [] r h = rw h refl
events_of-snoc_same session (q ∷ qs) r h = ground (arith, h, events_of-snoc_same session qs r h)

events_of-snoc_other :
    (session : ℕ) (rs : List CanonicalRecord) (r : CanonicalRecord)
    → (r.session_id == session) ≡ false
    → events_of session (rs ++ (r ∷ [])) ≡ events_of session rs
events_of-snoc_other session [] r h = rw h refl
events_of-snoc_other session (q ∷ qs) r h = ground (arith, h, events_of-snoc_other session qs r h)

-- The store with a record behind its session's last one.
abbrev pub recorded : Store → CanonicalRecord → Store
recorded s r =
    let t = bump_sequence r.session_id s in record t { canonical = t.canonical ++ (r ∷ []) }

module _ (s : Store) (r : CanonicalRecord) (at : r.sequence ≡ latest_sequence s r.session_id + 1)
    (session : ℕ) (e : (r.session_id == session) ≡ true) where
  next_sequence : r.sequence ≡ latest_sequence s session + 1
  next_sequence =
      subst (λ n. r.sequence ≡ latest_sequence s n + 1) ((==_iff r.session_id session).0 e) at

  next_latest :
      latest_sequence (bump_sequence r.session_id s) session ≡ latest_sequence s session + 1
  next_latest =
      subst (λ n. latest_sequence (bump_sequence n s) session ≡ latest_sequence s session + 1)
        (sym ((==_iff r.session_id session).0 e)) (latest-bump_same session s)

  next_count :
      length (events_of session (s.canonical ++ (r ∷ [])))
      ≡ length (events_of session s.canonical) + 1
  next_count =
      ap length (events_of-snoc_same session s.canonical r e)
      ∙ length-append (events_of session s.canonical) (r ∷ [])

pub recorded-IsSequenced :
    (s : Store) (r : CanonicalRecord)
    → r.sequence ≡ latest_sequence s r.session_id + 1
    → IsSequenced s
    → IsSequenced (recorded s r)
recorded-IsSequenced s r at c = record {
  run = λ session. elim (Bool-cases (r.session_id == session)) [
    | inl e ↦ rw (events_of-snoc_same session s.canonical r e) (
        Run-append (λ q. q.sequence) 0 (events_of session s.canonical) (r ∷ []) (c.run session)
          (omega (arith, next_sequence s r at session e, c.count session), tt))
    | inr e ↦ rw (events_of-snoc_other session s.canonical r e) (c.run session)
  ];
  count = λ session. elim (Bool-cases (r.session_id == session)) [
    | inl e ↦
        next_count s r at session e
        ∙ ap (λ n. n + 1) (c.count session)
        ∙ sym (next_latest s r at session e)
    | inr e ↦
        ap length (events_of-snoc_other session s.canonical r e)
        ∙ c.count session
        ∙ sym (latest-bump_other r.session_id session s e)
  ];
}
