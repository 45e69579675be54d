-- ===== src/Store/Credentials/Revoking.antt =====
-- packages/bridge/src/core/store.ts: a revocation through later writes.
use pi_mob.Prelude.{
  ℕ, ◌≡◌, refl, sym, subst, Bool, true, false, ◌∙◌, ap, Option, none, some, List, [], ◌∷◌, ◌++◌,
  ◌==◌, leb, first, update, is_some, arith, Bool-cases, inl, inr, ==_iff,
}
use pi_mob.Tables.{Credential, Secret}
use pi_mob.Store.{Store}
use pi_mob.Store.Transactions.{Keeps, transaction-keeps}
use pi_mob.Store.Credentials.{
  CredentialInput, credential_of, find_installation_credential, is_taken, new_credential, renewed,
  written, read_back, upsert_tx, upsert_installation_credential, touch_tx,
  touch_installation_credential, revoked_credential, revoke_found, revoke_tx,
  revoke_installation_credential, consume_enrollment_secret, consume_tx, consume_found,
  find_enrollment_secret,
}

abbrev revoked_of : Option Credential → Option (ℕ × ℕ)
revoked_of none = none
revoked_of (some c) = c.revoked

-- When and why the installation was revoked.
abbrev pub revocation : ℕ → Store → Option (ℕ × ℕ)
revocation id s = revoked_of (find_installation_credential id s)

abbrev pub IsRevoked : ℕ → ℕ × ℕ → Store → Type 0
IsRevoked id r s = revocation id s ≡ some r

update-same :
    (id : ℕ) (test : Credential → Bool) (f : Credential → Credential) (cs : List Credential)
    → ((c : Credential) → (f c).installation_id ≡ c.installation_id)
    → ((c : Credential) → (f c).revoked ≡ c.revoked)
    → revoked_of (first (credential_of id) (update test f cs))
      ≡ revoked_of (first (credential_of id) cs)
update-same id test f [] g h = refl
update-same id test f (c ∷ cs) g h = ground (arith, g c, h c, update-same id test f cs g h)

update-other :
    (id k : ℕ) (f : Credential → Credential) (cs : List Credential)
    → (k == id) ≡ false
    → ((c : Credential) → (f c).installation_id ≡ c.installation_id)
    → revoked_of (first (credential_of id) (update (credential_of k) f cs))
      ≡ revoked_of (first (credential_of id) cs)
update-other id k f [] e g = refl
update-other id k f (c ∷ cs) e g = ground (arith, e, g c, update-other id k f cs e g)

snoc-same :
    (id : ℕ) (r : ℕ × ℕ) (x : Credential) (cs : List Credential)
    → revoked_of (first (credential_of id) cs) ≡ some r
    → revoked_of (first (credential_of id) (cs ++ (x ∷ []))) ≡ some r
snoc-same id r x [] h = cc
snoc-same id r x (c ∷ cs) h = ground (arith, h, snoc-same id r x cs)

written-revoked :
    (id : ℕ) (r : ℕ × ℕ) (i : CredentialInput) (o : Option Credential) (cs : List Credential)
    → revoked_of (first (credential_of id) cs) ≡ some r
    → revoked_of (first (credential_of id) (written i o cs)) ≡ some r
written-revoked id r i none cs h = snoc-same id r (new_credential i) cs h
written-revoked id r i (some c) cs h =
    update-same id (credential_of i.installation_id) (renewed i) cs (λ c. refl) (λ c. refl) ∙ h

read-Keeps :
    (id : ℕ) (r : ℕ × ℕ) (t : Store) (o : Option Credential)
    → IsRevoked id r t
    → Keeps (IsRevoked id r) (read_back t o)
read-Keeps id r t none k = tt
read-Keeps id r t (some c) k = k

upsert_tx-Keeps :
    (id : ℕ) (r : ℕ × ℕ) (i : CredentialInput) (s : Store)
    → IsRevoked id r s
    → Keeps (IsRevoked id r) (upsert_tx i s)
unfolding upsert_tx
upsert_tx-Keeps id r i s h = elim (Bool-cases (is_taken i s.credentials)) [
  | inl e ↦ rw e tt
  | inr e ↦ rw e (
      read-Keeps id r
        (record s {
          credentials = written i (find_installation_credential i.installation_id s) s.credentials;
        })
        (find_installation_credential i.installation_id (record s {
          credentials = written i (find_installation_credential i.installation_id s) s.credentials;
        }))
        (written-revoked id r i (find_installation_credential i.installation_id s) s.credentials h))
]

revoke_found-Keeps :
    (id : ℕ) (r : ℕ × ℕ) (k reason at : ℕ) (s : Store) (o : Option Credential)
    → find_installation_credential k s ≡ o
    → IsRevoked id r s
    → Keeps (IsRevoked id r) (revoke_found k reason at o s)
unfolding revoke_found
revoke_found-Keeps id r k reason at s none e h = h
revoke_found-Keeps id r k reason at s (some c) e h = elim (Bool-cases (is_some c.revoked)) [
  | inl q ↦ rw q h
  | inr q ↦ rw q (elim (Bool-cases (k == id)) [
    | inl same ↦
        let eq = (==_iff k id).0 same in
        let rev : c.revoked ≡ some r =
          sym (ap revoked_of e) ∙ subst (λ j. revocation j s ≡ some r) (sym eq) h in
        let bad : is_some c.revoked ≡ true = ap is_some rev in cc
    | inr other ↦
        update-other id k (revoked_credential reason at) s.credentials other (λ c. refl) ∙ h
  ])
]

consume_found-Keeps :
    (id : ℕ) (r : ℕ × ℕ) (k at : ℕ) (by : Option ℕ) (s : Store) (o : Option Secret)
    → IsRevoked id r s
    → Keeps (IsRevoked id r) (consume_found k at by o s)
unfolding consume_found
consume_found-Keeps id r k at by s none h = h
consume_found-Keeps id r k at by s (some x) h = elim (Bool-cases (is_some x.used_at)) [
  | inl u ↦ rw u h
  | inr u ↦ elim (Bool-cases (leb x.expires_at at)) [ inl l ↦ rw (u, l) h | inr l ↦ rw (u, l) h ]
]

module _ (id : ℕ) (r : ℕ × ℕ) (s : Store) (h : IsRevoked id r s) where
  pub upsert-IsRevoked :
      (i : CredentialInput) → IsRevoked id r (upsert_installation_credential s i).0
  unfolding upsert_installation_credential
  upsert-IsRevoked i =
      transaction-keeps (IsRevoked id r) (λ s p c w h. h) (upsert_tx i) s (upsert_tx-Keeps id r i) h

  pub touch-IsRevoked : (k at : ℕ) → IsRevoked id r (touch_installation_credential s k at).0
  unfolding touch_installation_credential
  touch-IsRevoked k at =
      transaction-keeps (IsRevoked id r) (λ s p c w h. h) (touch_tx k at) s
        (λ t p.
          update-same id (credential_of k) (λ c. record c { last_seen_at = at }) t.credentials
            (λ c. refl) (λ c. refl)
          ∙ p)
        h

  pub revoke-IsRevoked :
      (k reason at : ℕ) → IsRevoked id r (revoke_installation_credential s k reason at).0
  unfolding revoke_installation_credential revoke_tx
  revoke-IsRevoked k reason at =
      transaction-keeps (IsRevoked id r) (λ s p c w h. h) (revoke_tx k reason at) s
        (λ t p. revoke_found-Keeps id r k reason at t (find_installation_credential k t) refl p) h

  pub consume-IsRevoked :
      (k at : ℕ) (by : Option ℕ) → IsRevoked id r (consume_enrollment_secret s k at by).0
  unfolding consume_enrollment_secret consume_tx
  consume-IsRevoked k at by =
      transaction-keeps (IsRevoked id r) (λ s p c w h. h) (consume_tx k at by) s
        (λ t. consume_found-Keeps id r k at by t (find_enrollment_secret k t)) h
