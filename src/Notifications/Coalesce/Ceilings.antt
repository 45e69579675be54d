-- ===== src/Notifications/Coalesce/Ceilings.antt =====
-- packages/bridge/src/notifications/coalesce.ts: no run of decisions passes the ceiling of a minute.
use pi_mob.Prelude.{
  ℕ, ◌+◌, ◌≤◌, ◌≡◌, refl, Bool, true, false, ◌&&◌, Option, none, some, List, [], ◌∷◌, arith, ltb,
  leb, if◌then◌else◌, keep, length, max, Bool-cases, inl, inr, subst, sym, ap, ◌∙◌, ◌⊎◌,
}
use pi_mob.Notifications.Coalesce.{
  Coalescer, CoalesceState, CoalesceLimits, CoalesceDecision, DecideInput, key_eq, get, put,
  or_zero, minute_of, minute_count, decide, decide_next, snapshot, emitted, kept_back, is_same_kind,
  repeated_state, first_state, blank_state, CoalesceReason, per_device_ceiling, first_one,
  session_ceiling_hit, repeated,
}

module _ {A : Type 0} where
  pub get-put_same : (k : ℕ × ℕ) (a : A) (es : List ((ℕ × ℕ) × A)) → get k (put k a es) ≡ some a
  get-put_same k a [] = ground arith
  get-put_same k a ((l, b) ∷ es) = ground (arith, get-put_same k a es)

  pub get-put_other :
      (k l : ℕ × ℕ) (a : A) (es : List ((ℕ × ℕ) × A))
      → key_eq l k ≡ false
      → get k (put l a es) ≡ get k es
  get-put_other k l a [] h = rw h refl
  get-put_other k l a ((m, b) ∷ es) h = ground (arith, h, get-put_other k l a es h)

-- The decisions of a list of inputs, one after another: the coalescer, and the inputs that were emitted.
abbrev pub add_emitted :
    Bool → DecideInput → Coalescer × List DecideInput → Coalescer × List DecideInput
add_emitted true i (c, is) = (c, i ∷ is)
add_emitted false i (c, is) = (c, is)

abbrev pub decide_all : Coalescer → List DecideInput → Coalescer × List DecideInput
decide_all c [] = (c, [])
decide_all c (i ∷ is) = add_emitted (decide_next c i).1.emit i (decide_all (decide_next c i).0 is)

pub add_emitted-length :
    (p : DecideInput → Bool) (b : Bool) (i : DecideInput) (o : Coalescer × List DecideInput)
    → length (keep p (add_emitted b i o).1) ≡ (if b && p i then 1 else 0) + length (keep p o.1)
add_emitted-length p true i o = ground arith
add_emitted-length p false i o = omega arith

-- What a decision does to a minute's count: an emission in it counts, below the ceiling, and nothing else does.
abbrev Counted : ℕ × ℕ → Coalescer → DecideInput → Coalescer × CoalesceDecision → Type 0
Counted m c i (c', d) =
    (c'.limits ≡ c.limits)
    × (minute_count m c' ≡ minute_count m c + (if d.emit && key_eq (minute_of i) m then 1 else 0))
    × (minute_count m c' ≤ max (minute_count m c) c.limits.per_minute_ceiling)

pub key_eq-path : (a b : ℕ × ℕ) → key_eq a b ≡ true → a ≡ b
key_eq-path (a, x) (b, y) h =
    let p : a ≡ b = ground (arith, h) in let q : x ≡ y = ground (arith, h) in rw (p, q) refl

emitted-minute :
    (m : ℕ × ℕ) (c : Coalescer) (i : DecideInput)
    → or_zero (get m (put (minute_of i) (minute_count (minute_of i) c + 1) c.per_device_minute))
      ≡ minute_count m c + (if key_eq (minute_of i) m then 1 else 0)
emitted-minute m c i = elim (Bool-cases (key_eq (minute_of i) m)) [
  | inl e ↦
      let at : or_zero (get m (put m (minute_count m c + 1) c.per_device_minute))
          ≡ minute_count m c + 1 =
        ap or_zero (get-put_same m (minute_count m c + 1) c.per_device_minute) in
      rw e (
        subst
          (λ k.
            or_zero (get m (put k (minute_count k c + 1) c.per_device_minute))
            ≡ minute_count m c + 1)
          (sym (key_eq-path (minute_of i) m e)) at)
  | inr e ↦ rw e (
      ap or_zero
        (get-put_other m (minute_of i) (minute_count (minute_of i) c + 1) c.per_device_minute e)
      ∙ omega arith)
]

emitted-Counted :
    (m : ℕ × ℕ) (c : Coalescer) (i : DecideInput) (reason : CoalesceReason) (next : CoalesceState)
    → leb c.limits.per_minute_ceiling (minute_count (minute_of i) c) ≡ false
    → Counted m c i (emitted c i reason next)
emitted-Counted m c i reason next below =
    let counts = emitted-minute m c i in
    (refl, counts, bound (Bool-cases (key_eq (minute_of i) m)) counts)
  where
    bound :
        {n : ℕ}
        → (key_eq (minute_of i) m ≡ true) ⊎ (key_eq (minute_of i) m ≡ false)
        → n ≡ minute_count m c + (if key_eq (minute_of i) m then 1 else 0)
        → n ≤ max (minute_count m c) c.limits.per_minute_ceiling
    bound (inl e) h =
        let here : minute_count (minute_of i) c ≡ minute_count m c =
          ap (λ k. minute_count k c) (key_eq-path (minute_of i) m e) in
        let k = rw e at h in ground (arith, below, here, k)
    bound (inr e) h = let k = rw e at h in omega (arith, k)

kept-Counted :
    (m : ℕ × ℕ) (c : Coalescer) (i : DecideInput) (reason : CoalesceReason) (next : CoalesceState)
    → Counted m c i (kept_back c reason next)
kept-Counted m c i reason next = (refl, omega arith, omega arith)

decide-Counted :
    (m : ℕ × ℕ) (c : Coalescer) (i : DecideInput) (o : Option CoalesceState)
    → Counted m c i (decide c i o)
unfolding decide
decide-Counted m c i none =
    elim (Bool-cases (leb c.limits.per_minute_ceiling (minute_count (minute_of i) c))) [
      | inl e ↦ rw e (kept-Counted m c i per_device_ceiling (blank_state i))
      | inr e ↦ rw e (emitted-Counted m c i first_one (first_state i) e)
    ]
decide-Counted m c i (some p) = elim (Bool-cases (leb c.limits.session_ceiling p.count)) [
  | inl e ↦ rw e (kept-Counted m c i session_ceiling_hit p)
  | inr e ↦
      elim (Bool-cases
        (is_same_kind i.kind p.last_kind && ltb i.now (p.last_at + c.limits.min_interval_ms))) [
          | inl k ↦ rw (e, k) (refl, omega arith, omega arith)
          | inr k ↦
              elim (Bool-cases (leb c.limits.per_minute_ceiling (minute_count (minute_of i) c))) [
                | inl l ↦ rw (e, k, l) (kept-Counted m c i per_device_ceiling p)
                | inr l ↦ rw (e, k, l) (emitted-Counted m c i repeated (repeated_state i p) l)
              ]
        ]
]

-- In any run of decisions, what a minute has counted and what the run emits to its device in it stay
-- within the ceiling of a minute, or within what the minute had counted if that was more.
pub decide_all-minute :
    (m : ℕ × ℕ) (c : Coalescer) (is : List DecideInput)
    → minute_count m c + length (keep (λ i. key_eq (minute_of i) m) (decide_all c is).1)
      ≤ max (minute_count m c) c.limits.per_minute_ceiling
unfolding decide_next
decide_all-minute m c [] = omega arith
decide_all-minute m c (i ∷ is) =
    go (decide_next c i) (decide-Counted m c i (snapshot c i.device_id i.session_id))
      (decide_all-minute m (decide_next c i).0 is)
  where
    go :
        (o : Coalescer × CoalesceDecision)
        → Counted m c i o
        → minute_count m o.0 + length (keep (λ i. key_eq (minute_of i) m) (decide_all o.0 is).1)
          ≤ max (minute_count m o.0) o.0.limits.per_minute_ceiling
        → minute_count m c
            + length
                (keep (λ i. key_eq (minute_of i) m) (add_emitted o.1.emit i (decide_all o.0 is)).1)
          ≤ max (minute_count m c) c.limits.per_minute_ceiling
    go o (limits, counts, low) ih =
        let same = ap (λ (l : CoalesceLimits). l.per_minute_ceiling) limits in
        let grown =
          add_emitted-length (λ i. key_eq (minute_of i) m) o.1.emit i (decide_all o.0 is) in
        omega (arith, same, grown, counts, low, ih)
