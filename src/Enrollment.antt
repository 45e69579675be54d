-- ===== src/Enrollment.antt =====
-- packages/bridge/src/auth: enrollment.ts, revoke.ts, and the hashes of credentials.ts. A text is the list of
-- its characters; SHA-256, of node:crypto, is a parameter, as is the text of an installation's id.
pub mod Once
pub mod Revoked
pub mod Binding
mod Tests
use pi_mob.Prelude.{
  ℕ, ◌+◌, ◌*◌, ◌/◌, ◌%◌, min, max, Bool, true, false, not, ◌&&◌, ◌||◌, Option, none, some, List, [],
  ◌∷◌, ◌++◌, leb, ◌==◌, if◌then◌else◌, every, is_some, length, take, drop, Result, ok, err,
}
use pi_mob.Tables.{Credential, manual}
use pi_mob.Store.{Store, StoreErrorCode}
use pi_mob.Store.Credentials.{
  Consumption, consumed, already_used, expired, unknown, CredentialInput,
  find_installation_credential, upsert_installation_credential, revoke_installation_credential,
  touch_installation_credential, consume_enrollment_secret, create_enrollment_secret,
}

abbrev pub Text : Type 0
Text = List ℕ

abbrev pub is_digit : ℕ → Bool
is_digit c = leb 48 c && leb c 57

-- `PAIRING_PASSCODE_PATTERN`: six digits.
abbrev pub is_passcode : Text → Bool
is_passcode t = length t == 6 && every is_digit t

-- A hexadecimal digit, in either case.
abbrev is_hex : ℕ → Bool
is_hex c = is_digit c || ((leb 97 c && leb c 102) || (leb 65 c && leb c 70))

-- `[0-9a-f]{n}`, and where more follows a dash.
abbrev is_group : ℕ → Text → Bool
is_group n t = length t == n && every is_hex t

abbrev pub starts_with : Text → Text → Bool
starts_with [] t = true
starts_with (c ∷ cs) [] = false
starts_with (c ∷ cs) (d ∷ ds) = c == d && starts_with cs ds

abbrev dash_at : ℕ → Text → Bool
dash_at n t = starts_with (45 ∷ []) (drop n t)

-- `UUID_PATTERN`: five groups with dashes between them.
abbrev pub is_uuid : Text → Bool
is_uuid t =
    is_group 8 (take 8 t)
    && (dash_at 8 t
        && (is_group 4 (take 4 (drop 9 t))
            && (dash_at 13 t
                && (is_group 4 (take 4 (drop 14 t))
                    && (dash_at 18 t
                        && (is_group 4 (take 4 (drop 19 t))
                            && (dash_at 23 t && is_group 12 (drop 24 t))))))))

-- `pc_`
abbrev pub credential_prefix : Text
credential_prefix = 112 ∷ 99 ∷ 95 ∷ []

-- `pi-mob-pairing-passcode:`
abbrev pub passcode_domain : Text
passcode_domain =
    112 ∷ 105 ∷ 45 ∷ 109 ∷ 111 ∷ 98 ∷ 45 ∷ 112 ∷ 97 ∷ 105 ∷ 114 ∷ 105 ∷ 110 ∷ 103 ∷ 45 ∷ 112 ∷ 97
    ∷ 115 ∷ 115 ∷ 99 ∷ 111 ∷ 100 ∷ 101 ∷ 58 ∷ []

pub data BindOutcome : Type 0 where
  bound : (credential : Text) (installation_id : ℕ) → BindOutcome
  bind_already_used bind_expired bind_unknown malformed_passcode : BindOutcome

-- The credential is the text that `issueCredential` returns.
pub record BindInput : Type 0 where
  pub installation_id : ℕ
  pub plain_passcode : Text
  pub credential : Text
  pub now : ℕ

pub data Revocation : Type 0 where
  revoked already_revoked unknown_installation : Revocation

-- The end of a revocation, where the store does not throw.
abbrev pub revocation_done :
    Store × Result StoreErrorCode Bool → Store × Result StoreErrorCode Revocation
revocation_done (s, ok b) = (s, ok revoked)
revocation_done (s, err e) = (s, err e)

abbrev pub revoke_row :
    (id reason at : ℕ) → Option Credential → Store → Store × Result StoreErrorCode Revocation
revoke_row id reason at none s = (s, ok unknown_installation)
revoke_row id reason at (some c) s =
    if is_some c.revoked
    then (s, ok already_revoked)
    else revocation_done (revoke_installation_credential s id reason at)

-- `revokeInstallationCredential` of revoke.ts, whose outcome also repeats the time that is given.
pub revoke_installation : Store → (id reason at : ℕ) → Store × Result StoreErrorCode Revocation
revoke_installation s id reason at = revoke_row id reason at (find_installation_credential id s) s

abbrev pub ttl_of : Option ℕ → ℕ
ttl_of none = min (max (5 * 60000) 30000) (60 * 60000)
ttl_of (some t) = min (max t 30000) (60 * 60000)

pub record PendingEnrollment : Type 0 where
  pub plaintext : Text
  pub expires_at : ℕ
  pub hash : ℕ

-- `issuePairingPasscode`: the decimal text of a number below a million, padded to six digits.
abbrev pub passcode_of : ℕ → Text
passcode_of n =
    (48 + n / 100000 % 10)
    ∷ (48 + n / 10000 % 10)
    ∷ (48 + n / 1000 % 10)
    ∷ (48 + n / 100 % 10)
    ∷ (48 + n / 10 % 10)
    ∷ (48 + n % 10)
    ∷ []

abbrev pub issued :
    PendingEnrollment
    → Store × Result StoreErrorCode (Unit {0})
    → Store × Result StoreErrorCode PendingEnrollment
issued p (s, ok u) = (s, ok p)
issued p (s, err e) = (s, err e)

module _ (sha256 : Text → ℕ) (id_text : ℕ → Text) where
  -- `hashPairingPasscode`; none for the empty text.
  abbrev pub hash_pairing_passcode : Text → Option ℕ
  hash_pairing_passcode t = if is_passcode t then some (sha256 (passcode_domain ++ t)) else none

  -- `hashCredential`; none for the empty text.
  abbrev pub hash_credential : Text → Option ℕ
  hash_credential t = if starts_with credential_prefix t then some (sha256 t) else none

  abbrev pub credential_input : BindInput → (secret_hash credential_hash : ℕ) → CredentialInput
  credential_input i h c = record {
    installation_id = i.installation_id;
    credential_hash = c;
    enrollment_secret_hash = h;
    enrollment_source = manual;
    created_at = i.now;
    last_seen_at = i.now;
    expires_at = none;
  }

  abbrev pub upsert_done :
      BindInput
      → Store × Result StoreErrorCode Credential
      → Store × Result StoreErrorCode BindOutcome
  upsert_done i (s, ok c) = (s, ok (bound i.credential i.installation_id))
  upsert_done i (s, err e) = (s, err e)

  abbrev pub bind_credential :
      BindInput → ℕ → Option ℕ → Store → Store × Result StoreErrorCode BindOutcome
  bind_credential i h none s = (s, ok malformed_passcode)
  bind_credential i h (some c) s =
      upsert_done i (upsert_installation_credential s (credential_input i h c))

  abbrev pub bind_consumed :
      BindInput
      → ℕ
      → Store × Result StoreErrorCode Consumption
      → Store × Result StoreErrorCode BindOutcome
  bind_consumed i h (s, ok consumed) = bind_credential i h (hash_credential i.credential) s
  bind_consumed i h (s, ok already_used) = (s, ok bind_already_used)
  bind_consumed i h (s, ok expired) = (s, ok bind_expired)
  bind_consumed i h (s, ok unknown) = (s, ok bind_unknown)
  bind_consumed i h (s, err e) = (s, err e)

  abbrev pub bind_hashed : Store → BindInput → Option ℕ → Store × Result StoreErrorCode BindOutcome
  bind_hashed s i none = (s, ok malformed_passcode)
  bind_hashed s i (some h) =
      bind_consumed i h (consume_enrollment_secret s h i.now (some i.installation_id))

  -- `bindEnrollment`.
  pub bind_enrollment : Store → BindInput → Store × Result StoreErrorCode BindOutcome
  bind_enrollment s i =
      if not (is_uuid (id_text i.installation_id))
      then (s, ok malformed_passcode)
      else bind_hashed s i (hash_pairing_passcode i.plain_passcode)

  -- `issuePendingEnrollment`, on the number that `issuePairingPasscode` draws. Its passcode has six digits, so that it
  -- has a hash.
  pub issue_pending_enrollment :
      Store → Option ℕ → (draw now : ℕ) → Store × Result StoreErrorCode PendingEnrollment
  issue_pending_enrollment s ttl draw now =
      let p : PendingEnrollment = record {
        plaintext = passcode_of draw;
        expires_at = now + ttl_of ttl;
        hash = sha256 (passcode_domain ++ passcode_of draw);
      } in
      issued p (create_enrollment_secret s p.hash now p.expires_at none)
