-- ===== src/Notifications/Coalesce/Sessions.antt =====
-- packages/bridge/src/notifications/coalesce.ts: no run of decisions passes the ceiling of a session.
use pi_mob.Prelude.{
  ℕ, ◌+◌, ◌≤◌, ◌<◌, ◌≡◌, refl, Bool, true, false, ◌&&◌, Option, none, some, List, [], ◌∷◌, arith,
  ltb, leb, if◌then◌else◌, keep, length, max, Bool-cases, inl, inr, subst, sym, ap, ◌∙◌,
}
use pi_mob.Notifications.Coalesce.{
  Coalescer, CoalesceState, CoalesceLimits, CoalesceDecision, DecideInput, key_eq, get, put,
  minute_of, key_of, minute_count, decide, decide_next, snapshot, emitted, kept_back, is_same_kind,
  coalesced, bumped_state, repeated_state, first_state, blank_state, CoalesceReason,
  per_device_ceiling, first_one, session_ceiling_hit, repeated,
}
use pi_mob.Notifications.Coalesce.Ceilings.{
  get-put_same, get-put_other, key_eq-path, add_emitted, decide_all, add_emitted-length,
}

-- A session's count on a device.
abbrev count_in : Option CoalesceState → ℕ
count_in none = 0
count_in (some p) = p.count

abbrev pub key_count : ℕ × ℕ → Coalescer → ℕ
key_count k c = count_in (get k c.per_key)

-- What a decision does to a session's count: an emission counts, and none passes the ceiling.
abbrev Tallied : ℕ × ℕ → Coalescer → DecideInput → Coalescer × CoalesceDecision → Type 0
Tallied k c i (c', d) =
    (c'.limits ≡ c.limits)
    × (key_count k c + (if d.emit && key_eq (key_of i) k then 1 else 0) ≤ key_count k c')
    × (key_count k c' ≤ max (key_count k c) (max 1 c.limits.session_ceiling))

put-count :
    (k : ℕ × ℕ) (c : Coalescer) (i : DecideInput) (next : CoalesceState)
    → next.count ≡ key_count (key_of i) c + 1
    → count_in (get k (put (key_of i) next c.per_key))
      ≡ key_count k c + (if key_eq (key_of i) k then 1 else 0)
put-count k c i next h = elim (Bool-cases (key_eq (key_of i) k)) [
  | inl e ↦
      let path = key_eq-path (key_of i) k e in
      let at : count_in (get k (put k next c.per_key)) ≡ next.count =
        ap count_in (get-put_same k next c.per_key) in
      rw e (
        subst (λ l. count_in (get k (put l next c.per_key)) ≡ next.count) (sym path) at
        ∙ h
        ∙ ap (λ l. key_count l c + 1) path)
  | inr e ↦ rw e (ap count_in (get-put_other k (key_of i) next c.per_key e) ∙ omega arith)
]

-- A state set behind one that is below the ceiling.
set-Tallied :
    (k : ℕ × ℕ) (c c' : Coalescer) (d : CoalesceDecision) (i : DecideInput) (next : CoalesceState)
    → c'.limits ≡ c.limits
    → c'.per_key ≡ put (key_of i) next c.per_key
    → next.count ≡ key_count (key_of i) c + 1
    → key_count (key_of i) c < max 1 c.limits.session_ceiling
    → Tallied k c i (c', d)
set-Tallied k c c' d i next limits set h below =
    let counts : key_count k c' ≡ key_count k c + (if key_eq (key_of i) k then 1 else 0) =
      ap (λ es. count_in (get k es)) set ∙ put-count k c i next h in
    elim (Bool-cases (key_eq (key_of i) k)) [
      | inl e ↦
          let here : key_count (key_of i) c ≡ key_count k c =
            ap (λ l. key_count l c) (key_eq-path (key_of i) k e) in
          let counts' : key_count k c' ≡ key_count k c + 1 = counts ∙ rw e refl in
          (limits, rw e (one d.emit counts'), omega (arith, here, counts', below))
      | inr e ↦
          let counts' : key_count k c' ≡ key_count k c + 0 = counts ∙ rw e refl in
          (limits, rw e (none_of d.emit counts'), omega (arith, counts'))
    ]
  where
    one :
        (b : Bool)
        → key_count k c' ≡ key_count k c + 1
        → key_count k c + (if b && true then 1 else 0) ≤ key_count k c'
    one true e = omega arith
    one false e = omega arith

    none_of :
        (b : Bool)
        → key_count k c' ≡ key_count k c + 0
        → key_count k c + (if b && false then 1 else 0) ≤ key_count k c'
    none_of true e = omega arith
    none_of false e = omega arith

kept-Tallied :
    (k : ℕ × ℕ) (c : Coalescer) (i : DecideInput) (reason : CoalesceReason) (next : CoalesceState)
    → Tallied k c i (kept_back c reason next)
kept-Tallied k c i reason next = (refl, omega arith, omega arith)

decide-Tallied :
    (k : ℕ × ℕ) (c : Coalescer) (i : DecideInput) (o : Option CoalesceState)
    → get (key_of i) c.per_key ≡ o
    → Tallied k c i (decide c i o)
unfolding decide
decide-Tallied k c i none h =
    elim (Bool-cases (leb c.limits.per_minute_ceiling (minute_count (minute_of i) c))) [
      | inl e ↦ rw e (kept-Tallied k c i per_device_ceiling (blank_state i))
      | inr e ↦ rw e (
          set-Tallied k c (emitted c i first_one (first_state i)).0
            (emitted c i first_one (first_state i)).1 i (first_state i) refl refl
            (sym (ap (λ p. count_in p + 1) h)) (omega (arith, ap count_in h)))
    ]
decide-Tallied k c i (some p) h =
    let at : key_count (key_of i) c ≡ p.count = ap count_in h in
    elim (Bool-cases (leb c.limits.session_ceiling p.count)) [
      | inl e ↦ rw e (kept-Tallied k c i session_ceiling_hit p)
      | inr e ↦
          let below : key_count (key_of i) c < max 1 c.limits.session_ceiling =
            ground (arith, at, e) in
          elim (Bool-cases
            (is_same_kind i.kind p.last_kind && ltb i.now (p.last_at + c.limits.min_interval_ms))) [
              | inl q ↦
                  rw (e, q)
                    (set-Tallied k c (coalesced c i p).0 (coalesced c i p).1 i (bumped_state i p)
                      refl refl (omega (arith, at)) below)
              | inr q ↦
                  elim (Bool-cases
                    (leb c.limits.per_minute_ceiling (minute_count (minute_of i) c))) [
                      | inl l ↦ rw (e, q, l) (kept-Tallied k c i per_device_ceiling p)
                      | inr l ↦
                          rw (e, q, l)
                            (set-Tallied k c (emitted c i repeated (repeated_state i p)).0
                              (emitted c i repeated (repeated_state i p)).1 i (repeated_state i p)
                              refl refl (omega (arith, at)) below)
                    ]
            ]
    ]

-- In any run of decisions, what a device's session has counted and what the run emits to it stay within
-- the ceiling of a session, which is one at least, or within what it had counted if that was more.
pub decide_all-session :
    (k : ℕ × ℕ) (c : Coalescer) (is : List DecideInput)
    → key_count k c + length (keep (λ i. key_eq (key_of i) k) (decide_all c is).1)
      ≤ max (key_count k c) (max 1 c.limits.session_ceiling)
unfolding decide_next snapshot
decide_all-session k c [] = omega arith
decide_all-session k c (i ∷ is) =
    go (decide_next c i) (decide-Tallied k c i (get (key_of i) c.per_key) refl)
      (decide_all-session k (decide_next c i).0 is)
  where
    go :
        (o : Coalescer × CoalesceDecision)
        → Tallied k c i o
        → key_count k o.0 + length (keep (λ i. key_eq (key_of i) k) (decide_all o.0 is).1)
          ≤ max (key_count k o.0) (max 1 o.0.limits.session_ceiling)
        → key_count k c
            + length
                (keep (λ i. key_eq (key_of i) k) (add_emitted o.1.emit i (decide_all o.0 is)).1)
          ≤ max (key_count k c) (max 1 c.limits.session_ceiling)
    go o (limits, counts, low) ih =
        let same = ap (λ (l : CoalesceLimits). l.session_ceiling) limits in
        let grown = add_emitted-length (λ i. key_eq (key_of i) k) o.1.emit i (decide_all o.0 is) in
        omega (arith, same, grown, counts, low, ih)
