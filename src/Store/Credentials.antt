-- ===== src/Store/Credentials.antt =====
-- packages/bridge/src/core/store.ts: enrollment secrets and the credentials of installations. The
-- reason of a revocation is the text that is stored, cut to its length.
pub mod Spending
pub mod Granting
pub mod Revoking
use pi_mob.Prelude.{
  ℕ, ◌+◌, Bool, true, false, not, ◌&&◌, Option, none, some, List, [], ◌∷◌, ◌++◌, leb, ◌==◌,
  if◌then◌else◌, first, has, keep, update, is_some, length, Result, ok, err,
}
use pi_mob.Tables.{Secret, Credential, EnrollmentSource}
use pi_mob.Store.{Store, Tx, transaction, StoreErrorCode, io, broken_constraint, store_error, Fault}

abbrev pub credential_of : ℕ → Credential → Bool
credential_of id c = c.installation_id == id

-- `findInstallationCredential`.
abbrev pub find_installation_credential : ℕ → Store → Option Credential
find_installation_credential id s = first (credential_of id) s.credentials

pub record CredentialInput : Type 0 where
  pub installation_id : ℕ
  pub credential_hash : ℕ
  pub enrollment_secret_hash : ℕ
  pub enrollment_source : EnrollmentSource
  pub created_at : ℕ
  pub last_seen_at : ℕ
  pub expires_at : Option ℕ

-- The unique index on the hash: no row of another installation has it.
abbrev pub is_taken : CredentialInput → List Credential → Bool
is_taken i =
    has
      (λ c. not (c.installation_id == i.installation_id) && c.credential_hash == i.credential_hash)

abbrev pub renewed : CredentialInput → Credential → Credential
renewed i c = record c {
  credential_hash = i.credential_hash;
  enrollment_secret_hash = i.enrollment_secret_hash;
  enrollment_source = i.enrollment_source;
  created_at = i.created_at;
  last_seen_at = i.last_seen_at;
  expires_at = i.expires_at;
}

abbrev pub new_credential : CredentialInput → Credential
new_credential i = record {
  installation_id = i.installation_id;
  credential_hash = i.credential_hash;
  enrollment_secret_hash = i.enrollment_secret_hash;
  enrollment_source = i.enrollment_source;
  created_at = i.created_at;
  last_seen_at = i.last_seen_at;
  expires_at = i.expires_at;
  revoked = none;
}

-- UPDATE where the installation has a row, else INSERT.
abbrev pub written : CredentialInput → Option Credential → List Credential → List Credential
written i none cs = cs ++ (new_credential i ∷ [])
written i (some c) cs = update (credential_of i.installation_id) (renewed i) cs

abbrev pub read_back : Store → Option Credential → Result Fault (Store × Credential)
read_back s none = err (store_error io)
read_back s (some c) = ok (s, c)

upsert_tx : CredentialInput → Tx Credential
upsert_tx i s =
    if is_taken i s.credentials
    then err broken_constraint
    else let t = record s {
      credentials = written i (find_installation_credential i.installation_id s) s.credentials;
    } in
      read_back t (find_installation_credential i.installation_id t)

-- `upsertInstallationCredential`.
pub upsert_installation_credential :
    Store → CredentialInput → Store × Result StoreErrorCode Credential
upsert_installation_credential s i = transaction (upsert_tx i) s

abbrev touch_tx : ℕ → ℕ → Tx (Unit {0})
touch_tx id at s = ok (
  record s {
    credentials = update (credential_of id) (λ c. record c { last_seen_at = at }) s.credentials;
  },
  tt,
)

-- `touchInstallationCredential`.
pub touch_installation_credential : Store → (id at : ℕ) → Store × Result StoreErrorCode (Unit {0})
touch_installation_credential s id at = transaction (touch_tx id at) s

abbrev pub revoked_credential : (reason at : ℕ) → Credential → Credential
revoked_credential reason at c = record c { revoked = some (at, reason) }

revoke_found : (id reason at : ℕ) → Option Credential → Tx Bool
revoke_found id reason at none s = ok (s, false)
revoke_found id reason at (some c) s =
    if is_some c.revoked
    then ok (s, true)
    else ok (
      record s {
        credentials = update (credential_of id) (revoked_credential reason at) s.credentials;
      },
      true,
    )

revoke_tx : (id reason at : ℕ) → Tx Bool
revoke_tx id reason at s = revoke_found id reason at (find_installation_credential id s) s

-- `revokeInstallationCredential`.
pub revoke_installation_credential : Store → (id reason at : ℕ) → Store × Result StoreErrorCode Bool
revoke_installation_credential s id reason at = transaction (revoke_tx id reason at) s

-- `INSERT OR REPLACE INTO enrollment_secrets`: the row with the key is replaced.
abbrev pub create_tx : (secret_hash created_at expires_at : ℕ) → Option ℕ → Tx (Unit {0})
create_tx h created expires used s = ok (
  record s {
    secrets =
        keep (λ x. not (x.secret_hash == h)) s.secrets
        ++ (record {
          secret_hash = h;
          created_at = created;
          expires_at = expires;
          used_at = used;
          used_by = none;
        }
            ∷ []);
  },
  tt,
)

-- `createEnrollmentSecret`.
pub create_enrollment_secret :
    Store
    → (secret_hash created_at expires_at : ℕ) → Option ℕ
    → Store × Result StoreErrorCode (Unit {0})
create_enrollment_secret s h created expires used = transaction (create_tx h created expires used) s

pub data Consumption : Type 0 where
  consumed already_used expired unknown : Consumption

-- A row that `... WHERE secret_hash=? AND used_at IS NULL` updates.
abbrev pub is_live : ℕ → Secret → Bool
is_live h x = x.secret_hash == h && not (is_some x.used_at)

abbrev pub spent : ℕ → Option ℕ → Secret → Secret
spent at by x = record x { used_at = some at; used_by = by }

consume_found : (secret_hash at : ℕ) → Option ℕ → Option Secret → Tx Consumption
consume_found h at by none s = ok (s, unknown)
consume_found h at by (some r) s =
    if is_some r.used_at
    then ok (s, already_used)
    else if leb r.expires_at at
    then ok (s, expired)
    else ok (
      record s { secrets = update (is_live h) (spent at by) s.secrets },
      (if length (keep (is_live h) s.secrets) == 1 then consumed else already_used),
    )

-- `findEnrollmentSecret`.
abbrev pub find_enrollment_secret : ℕ → Store → Option Secret
find_enrollment_secret h s = first (λ x. x.secret_hash == h) s.secrets

consume_tx : (secret_hash at : ℕ) → Option ℕ → Tx Consumption
consume_tx h at by s = consume_found h at by (find_enrollment_secret h s) s

-- `consumeEnrollmentSecret`.
pub consume_enrollment_secret :
    Store → (secret_hash at : ℕ) → Option ℕ → Store × Result StoreErrorCode Consumption
consume_enrollment_secret s h at by = transaction (consume_tx h at by) s
