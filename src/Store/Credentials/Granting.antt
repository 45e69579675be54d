-- ===== src/Store/Credentials/Granting.antt =====
-- packages/bridge/src/core/store.ts: secrets and credentials on a store that takes writes.
use pi_mob.Prelude.{
  ℕ, ◌<◌, ◌≤◌, Result, le→leb, ◌≡◌, refl, sym, ap, subst, ◌∙◌, true, false, not, Option, none, some,
  List, [], ◌∷◌, ◌++◌, ◌==◌, leb, keep, first, update, is_some, length, ok, arith, Bool-cases, inl,
  inr, ==_refl, lt→leb_false,
}
use pi_mob.Tables.{Secret, Credential}
use pi_mob.Store.{Store, conclude, transaction, StoreErrorCode}
use pi_mob.Store.Transactions.{transaction-open}
use pi_mob.Store.Credentials.{
  Consumption, consumed, expired, is_live, spent, consume_found, consume_tx,
  consume_enrollment_secret, find_enrollment_secret, create_tx, create_enrollment_secret,
  CredentialInput, credential_of, find_installation_credential, is_taken, new_credential, renewed,
  written, upsert_tx, upsert_installation_credential,
}

-- A store that takes writes and holds the credentials of another.
pub record TakesWrites (s t : Store) : Type 0 where
  pub writable : t.writable ≡ true
  pub maintenance : t.maintenance ≡ false
  pub credentials : t.credentials ≡ s.credentials

-- A hash's row that is not used and expires later, and no other of the hash.
pub record IsReady (h at : ℕ) (s : Store) : Type 0 where
  pub row : Secret
  pub found : find_enrollment_secret h s ≡ some row
  pub unused : is_some row.used_at ≡ false
  pub later : leb row.expires_at at ≡ false
  pub alone : length (keep (is_live h) s.secrets) ≡ 1

module _ (h : ℕ) (x : Secret) (e : (x.secret_hash == h) ≡ true) where
  found_last :
      (xs : List Secret)
      → first (λ y. y.secret_hash == h) (keep (λ y. not (y.secret_hash == h)) xs ++ (x ∷ []))
        ≡ some x
  found_last [] = rw e refl
  found_last (y ∷ ys) = ground (arith, found_last ys)

  alone_last :
      (xs : List Secret)
      → is_some x.used_at ≡ false
      → length (keep (is_live h) (keep (λ y. not (y.secret_hash == h)) xs ++ (x ∷ []))) ≡ 1
  alone_last [] u = rw (e, u) refl
  alone_last (y ∷ ys) u = ground (arith, alone_last ys u)

pub create-IsReady :
    (s : Store) (h created expires at : ℕ)
    → s.writable ≡ true
    → s.maintenance ≡ false
    → at < expires
    → IsReady h at (create_enrollment_secret s h created expires none).0
      × TakesWrites s (create_enrollment_secret s h created expires none).0
unfolding create_enrollment_secret
create-IsReady s h created expires at w m l =
    subst (λ o. IsReady h at o.0 × TakesWrites s o.0)
      (sym (transaction-open (create_tx h created expires none) s w m))
      (
        record {
          row = record {
            secret_hash = h;
            created_at = created;
            expires_at = expires;
            used_at = none;
            used_by = none;
          };
          found =
              found_last h
                (record {
                  secret_hash = h;
                  created_at = created;
                  expires_at = expires;
                  used_at = none;
                  used_by = none;
                })
                (==_refl h) s.secrets;
          unused = refl;
          later = lt→leb_false expires at l;
          alone =
              alone_last h
                (record {
                  secret_hash = h;
                  created_at = created;
                  expires_at = expires;
                  used_at = none;
                  used_by = none;
                })
                (==_refl h) s.secrets refl;
        },
        record { writable = w; maintenance = m; credentials = refl },
      )

-- A row that has expired is left as it is.
pub create_expired :
    (s : Store) (h created expires at : ℕ) (by : Option ℕ)
    → s.writable ≡ true
    → s.maintenance ≡ false
    → expires ≤ at
    → (consume_enrollment_secret (create_enrollment_secret s h created expires none).0 h at by).1
      ≡ ok expired
unfolding create_enrollment_secret consume_enrollment_secret consume_tx consume_found
create_expired s h created expires at by w m l =
    let row : Secret = record {
      secret_hash = h;
      created_at = created;
      expires_at = expires;
      used_at = none;
      used_by = none;
    } in
    subst
      (λ (o : Store × Result StoreErrorCode (Unit {0})).
        (transaction (consume_tx h at by) o.0).1 ≡ ok expired)
      (sym (transaction-open (create_tx h created expires none) s w m))
      (ap (λ (o : Store × Result StoreErrorCode Consumption). o.1)
          (transaction-open (consume_tx h at by)
            (conclude s (create_tx h created expires none (record s { collecting = [] }))).0 w m)
        ∙ rw (found_last h row (==_refl h) s.secrets, le→leb expires at l) refl)

consume_found_ready :
    (h at : ℕ) (by : Option ℕ) (s : Store)
    → IsReady h at s
    → consume_tx h at by s
      ≡ ok (record s { secrets = update (is_live h) (spent at by) s.secrets }, consumed)
unfolding consume_tx consume_found
consume_found_ready h at by s r = simp (r.found, r.unused, r.later, r.alone)

-- A ready secret is consumed.
pub consume_ready :
    (h at : ℕ) (by : Option ℕ) (s : Store)
    → s.writable ≡ true
    → s.maintenance ≡ false
    → IsReady h at s
    → ((consume_enrollment_secret s h at by).1 ≡ ok consumed)
      × TakesWrites s (consume_enrollment_secret s h at by).0
unfolding consume_enrollment_secret
consume_ready h at by s w m r =
    subst (λ o. (o.1 ≡ ok consumed) × TakesWrites s o.0)
      (sym (
        transaction-open (consume_tx h at by) s w m
        ∙ ap (conclude s) (
            consume_found_ready h at by (record s { collecting = [] })
              (record {
                row = r.row;
                found = r.found;
                unused = r.unused;
                later = r.later;
                alone = r.alone;
              }))))
      (refl, record { writable = w; maintenance = m; credentials = refl })

written-found :
    (i : CredentialInput) (o : Option Credential) (cs : List Credential)
    → first (credential_of i.installation_id) cs ≡ o
    → (c : Credential) × (first (credential_of i.installation_id) (written i o cs) ≡ some c)
written-found i none [] e = (new_credential i, rw (==_refl i.installation_id) refl)
written-found i none (x ∷ xs) e = elim (Bool-cases (credential_of i.installation_id x)) [
  | inl q ↦ let bad : some x ≡ none = rw q at e in cc
  | inr q ↦ rw q (written-found i none xs (rw q at e))
]
written-found i (some c) [] e = cc
written-found i (some c) (x ∷ xs) e = elim (Bool-cases (credential_of i.installation_id x)) [
  | inl q ↦ rw (q, q) (renewed i x, refl)
  | inr q ↦ rw (q, q) (written-found i (some c) xs (rw q at e))
]

-- A credential whose hash no other installation has is written.
pub upsert_free :
    (i : CredentialInput) (s : Store)
    → s.writable ≡ true
    → s.maintenance ≡ false
    → is_taken i s.credentials ≡ false
    → (c : Credential) × ((upsert_installation_credential s i).1 ≡ ok c)
unfolding upsert_installation_credential upsert_tx
upsert_free i s w m f =
    let found =
      written-found i (find_installation_credential i.installation_id s) s.credentials refl in
    (found.0, ap (λ o. o.1) (transaction-open (upsert_tx i) s w m) ∙ simp (f, found.1))
