-- ===== src/RateQuota/Rate.antt =====
-- packages/bridge/src/auth/rate-quota.ts: how many uploads a minute admits.
use pi_mob.Prelude.{
  ℕ, ◌+◌, ◌-◌, ◌≤◌, ◌≡◌, refl, sym, ap, Bool, ◌&&◌, List, [], ◌∷◌, ◌++◌, ltb, ◌==◌, if◌then◌else◌,
  keep, length, All, arith, Bool-cases, inl, inr, ==_iff, subst,
}
use pi_mob.RateQuota.{
  RateQuotaLimits, RateQuotaOutcome, allowed, rate_limited, storage_full, quota_exceeded, window_ms,
  Windows, window_of, set_window, oldest, Upload, recent, outcome_of, can_upload,
}

-- Less than a minute before a time, or after it.
abbrev within : ℕ → ℕ → Bool
within t stamp = ltb t (stamp + window_ms)

-- The stamps of an installation that a time counts.
abbrev counted : ℕ → ℕ → Windows → ℕ
counted id t ws = length (keep (within t) (window_of id ws))

-- The calls of an installation that a time counts.
abbrev pub calls_within : ℕ → ℕ → List Upload → ℕ
calls_within id t us = length (keep (λ u. u.installation_id == id && ltb t (u.at + window_ms)) us)

-- The windows after calls.
abbrev pub upload_all : RateQuotaLimits → Windows → List Upload → Windows
upload_all l ws [] = ws
upload_all l ws (u ∷ us) = upload_all l (can_upload l ws u).0 us

window_of-set :
    (id k : ℕ) (ts : List ℕ) (ws : Windows)
    → window_of id (set_window k ts ws) ≡ (if k == id then ts else window_of id ws)
window_of-set id k ts [] = refl
window_of-set id k ts ((j, old) ∷ ws) = ground (arith, window_of-set id k ts ws)

counted-recent :
    (t at : ℕ) (ts : List ℕ)
    → at ≤ t
    → length (keep (within t) (keep (within at) ts ++ (at ∷ [])))
      ≡ length (keep (within t) ts) + (if within t at then 1 else 0)
counted-recent t at [] h = ground arith
counted-recent t at (x ∷ xs) h = ground (arith, counted-recent t at xs h)

counted-step :
    (l : RateQuotaLimits) (id t : ℕ) (ws : Windows) (u : Upload)
    → u.at ≤ t
    → counted id t (can_upload l ws u).0
      ≡ counted id t ws + (if u.installation_id == id && within t u.at then 1 else 0)
unfolding can_upload
counted-step l id t ws u h = elim (Bool-cases (u.installation_id == id)) [
  | inl e ↦
      let same = (==_iff u.installation_id id).0 e in
      rw (window_of-set id u.installation_id (recent ws u) ws, e)
        (subst
          (λ j.
            length (keep (within t) (keep (within u.at) (window_of j ws) ++ (u.at ∷ [])))
            ≡ counted id t ws + (if within t u.at then 1 else 0))
          (sym same) (counted-recent t u.at (window_of id ws) h))
  | inr e ↦ rw (window_of-set id u.installation_id (recent ws u) ws, e) (omega arith)
]

counted-calls :
    (l : RateQuotaLimits) (id t : ℕ) (ws : Windows) (us : List Upload)
    → All (λ u. u.at ≤ t) us
    → counted id t (upload_all l ws us) ≡ counted id t ws + calls_within id t us
counted-calls l id t ws [] h = omega arith
counted-calls l id t ws (u ∷ us) h =
    let step = counted-step l id t ws u h.0 in
    let rest = counted-calls l id t (can_upload l ws u).0 us h.1 in
    elim (Bool-cases (u.installation_id == id && within t u.at)) [
      | inl e ↦ let one = rw e at step in rw e (omega (arith, one, rest))
      | inr e ↦ let none = rw e at step in rw e (omega (arith, none, rest))
    ]

length-snoc : (x : ℕ) (xs : List ℕ) → length (xs ++ (x ∷ [])) ≡ length xs + 1
length-snoc x [] = refl
length-snoc x (y ∷ ys) = omega (arith, length-snoc x ys)

abbrev remaining_of : RateQuotaOutcome → ℕ
remaining_of (allowed n) = n
remaining_of _ = 0

outcome_of-allowed :
    (l : RateQuotaLimits) (u : Upload) (ts : List ℕ) (r : ℕ)
    → outcome_of l u ts ≡ allowed r
    → length ts + r ≡ l.uploads_per_minute
unfolding outcome_of
outcome_of-allowed l u ts r e = elim (Bool-cases (ltb l.uploads_per_minute (length ts))) [
  | inl q ↦ let bad : rate_limited (oldest ts + window_ms) ≡ allowed r = rw q at e in cc
  | inr q ↦ elim (Bool-cases (ltb l.aggregate_bytes (u.aggregate + u.declared_bytes))) [
    | inl a ↦ let bad : storage_full l.aggregate_bytes ≡ allowed r = rw (q, a) at e in cc
    | inr a ↦
        elim (Bool-cases (ltb l.retained_bytes_per_installation (u.retained + u.declared_bytes))) [
          | inl b ↦
              let bad : quota_exceeded l.retained_bytes_per_installation ≡ allowed r =
                rw (q, a, b) at e in
              cc
          | inr b ↦
              let made : l.uploads_per_minute - length ts ≡ r =
                ap remaining_of (rw (q, a, b) at e) in
              ground (arith, q, made)
        ]
  ]
]

-- After calls none of which is later than this one, a call that is allowed with a number of uploads
-- remaining makes, with that number, the limit: together with the calls of its installation in the
-- minute before, whether they were allowed or not.
pub can_upload-rate :
    (l : RateQuotaLimits) (us : List Upload) (u : Upload) (r : ℕ)
    → All (λ v. v.at ≤ u.at) us
    → (can_upload l (upload_all l [] us) u).1 ≡ allowed r
    → calls_within u.installation_id u.at us + 1 + r ≡ l.uploads_per_minute
unfolding can_upload
can_upload-rate l us u r h e =
    let ws = upload_all l [] us in
    let made = outcome_of-allowed l u (recent ws u) r e in
    let size = length-snoc u.at (keep (within u.at) (window_of u.installation_id ws)) in
    let calls = counted-calls l u.installation_id u.at [] us h in omega (arith, made, size, calls)
