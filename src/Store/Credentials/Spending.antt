-- ===== src/Store/Credentials/Spending.antt =====
-- packages/bridge/src/core/store.ts: what consuming a secret leaves.
use pi_mob.Prelude.{
  ℕ, ◌+◌, ◌≤◌, ◌≡◌, refl, sym, subst, false, Option, none, some, List, [], ◌∷◌, ◌==◌, leb,
  if◌then◌else◌, keep, update, is_some, length, Result, ok, arith, Bool-cases, inl, inr, ==_iff,
  keep-update-le,
}
use pi_mob.Tables.{Secret, Credential}
use pi_mob.Store.{Store, StoreErrorCode, conclude}
use pi_mob.Store.Transactions.{transaction-cases, Keeps, transaction-keeps}
use pi_mob.Store.Credentials.{
  Consumption, consumed, already_used, is_live, spent, consume_found, consume_tx,
  consume_enrollment_secret, find_enrollment_secret, CredentialInput, is_taken, written, read_back,
  upsert_tx, touch_tx, revoke_found, revoke_tx, upsert_installation_credential,
  touch_installation_credential, revoke_installation_credential, find_installation_credential,
}

-- The rows of a hash that are not used.
abbrev pub live : ℕ → Store → ℕ
live h s = length (keep (is_live h) s.secrets)

abbrev pub charge : Result StoreErrorCode Consumption → ℕ
charge (ok consumed) = 1
charge _ = 0

-- A secret that is handed over is live before and not after; no row becomes live.
abbrev pub Spends : (h k : ℕ) → Store → Store × Result StoreErrorCode Consumption → Type 0
Spends h k s o = live h o.0 + (if h == k then charge o.1 else 0) ≤ live h s

spent-not : (h at : ℕ) (by : Option ℕ) (x : Secret) → is_live h (spent at by x) ≡ false
spent-not h at by x = ground arith

none_left :
    (h at : ℕ) (by : Option ℕ) (xs : List Secret)
    → length (keep (is_live h) (update (is_live h) (spent at by) xs)) ≤ 0
none_left h at by [] = omega arith
none_left h at by (x ∷ xs) = ground (arith, spent-not h at by x, none_left h at by xs)

update-Spends :
    (h k at : ℕ) (by : Option ℕ) (s : Store)
    → Spends h k s (
      record s { secrets = update (is_live k) (spent at by) s.secrets },
      ok (if length (keep (is_live k) s.secrets) == 1 then consumed else already_used),
    )
update-Spends h k at by s = elim (Bool-cases (h == k)) [
  | inl e ↦
      let same = (==_iff h k).0 e in
      let left =
        subst (λ j. length (keep (is_live h) (update (is_live j) (spent at by) s.secrets)) ≤ 0) same
          (none_left h at by s.secrets) in
      let counts =
        subst (λ j. length (keep (is_live j) s.secrets) ≡ length (keep (is_live h) s.secrets)) same
          refl in
      elim (Bool-cases (length (keep (is_live k) s.secrets) == 1)) [
        | inl q ↦
            rw (e, q)
              (let one = (==_iff (length (keep (is_live k) s.secrets)) 1).0 q in
                omega (arith, left, counts, one))
        | inr q ↦ rw (e, q) (omega (arith, left))
      ]
  | inr e ↦ rw e (
      let le =
        keep-update-le (is_live h) (is_live k) (spent at by) s.secrets
          (λ x _. spent-not h at by x) in
      omega (arith, le))
]

found-Spends :
    (h k at : ℕ) (by : Option ℕ) (s : Store) (o : Option Secret)
    → Spends h k s (conclude s (consume_found k at by o (record s { collecting = [] })))
unfolding consume_found
found-Spends h k at by s none = ground arith
found-Spends h k at by s (some r) = elim (Bool-cases (is_some r.used_at)) [
  | inl u ↦ rw u (ground arith)
  | inr u ↦ elim (Bool-cases (leb r.expires_at at)) [
    | inl x ↦ rw (u, x) (ground arith)
    | inr x ↦ rw (u, x) (update-Spends h k at by s)
  ]
]

pub consume-Spends :
    (h k at : ℕ) (by : Option ℕ) (s : Store) → Spends h k s (consume_enrollment_secret s k at by)
unfolding consume_enrollment_secret consume_tx
consume-Spends h k at by s = elim (transaction-cases (consume_tx k at by) s) [
  | inl e ↦ subst (Spends h k s) (sym e) (ground arith)
  | inr e ↦ subst (Spends h k s) (sym e) (found-Spends h k at by s (find_enrollment_secret k s))
]

module _ (h n : ℕ) where
  -- At most so many rows of the hash that are not used.
  abbrev HasAtMost : Store → Type 0
  HasAtMost s = live h s ≤ n

  read-HasAtMost :
      (t : Store) (o : Option Credential) → HasAtMost t → Keeps HasAtMost (read_back t o)
  read-HasAtMost t none k = tt
  read-HasAtMost t (some c) k = k

  upsert_tx-HasAtMost :
      (i : CredentialInput) (s : Store) → HasAtMost s → Keeps HasAtMost (upsert_tx i s)
  unfolding upsert_tx
  upsert_tx-HasAtMost i s k = elim (Bool-cases (is_taken i s.credentials)) [
    | inl e ↦ rw e tt
    | inr e ↦ rw e (
        let t : Store = record s {
          credentials = written i (find_installation_credential i.installation_id s) s.credentials;
        } in
        read-HasAtMost t (find_installation_credential i.installation_id t) k)
  ]

  revoke_found-HasAtMost :
      (id reason at : ℕ) (s : Store) (o : Option Credential)
      → HasAtMost s
      → Keeps HasAtMost (revoke_found id reason at o s)
  unfolding revoke_found
  revoke_found-HasAtMost id reason at s none k = k
  revoke_found-HasAtMost id reason at s (some c) k = elim (Bool-cases (is_some c.revoked)) [
    | inl e ↦ rw e k
    | inr e ↦ rw e k
  ]

module _ (h : ℕ) (s : Store) where
  pub upsert-live : (i : CredentialInput) → live h (upsert_installation_credential s i).0 ≤ live h s
  unfolding upsert_installation_credential
  upsert-live i =
      transaction-keeps (HasAtMost h (live h s)) (λ s p c w h. h) (upsert_tx i) s
        (upsert_tx-HasAtMost h (live h s) i) (omega arith)

  pub touch-live : (id at : ℕ) → live h (touch_installation_credential s id at).0 ≤ live h s
  unfolding touch_installation_credential
  touch-live id at =
      transaction-keeps (HasAtMost h (live h s)) (λ s p c w h. h) (touch_tx id at) s (λ t k. k)
        (omega arith)

  pub revoke-live :
      (id reason at : ℕ) → live h (revoke_installation_credential s id reason at).0 ≤ live h s
  unfolding revoke_installation_credential revoke_tx
  revoke-live id reason at =
      transaction-keeps (HasAtMost h (live h s)) (λ s p c w h. h) (revoke_tx id reason at) s
        (λ t.
          revoke_found-HasAtMost h (live h s) id reason at t (find_installation_credential id t))
        (omega arith)
