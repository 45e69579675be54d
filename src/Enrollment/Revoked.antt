-- ===== src/Enrollment/Revoked.antt =====
-- packages/bridge/src/auth: a revoked installation through later requests.
use pi_mob.Prelude.{
  ℕ, sym, subst, Option, none, some, List, [], ◌∷◌, Result, ok, err, Bool-cases, inl, inr, is_some,
}
use pi_mob.Tables.{Credential}
use pi_mob.Store.{Store, StoreErrorCode}
use pi_mob.Store.Credentials.{
  Consumption, consumed, already_used, expired, unknown, find_installation_credential,
  consume_enrollment_secret, upsert_installation_credential, revoke_installation_credential,
}
use pi_mob.Store.Credentials.Revoking.{
  IsRevoked, upsert-IsRevoked, touch-IsRevoked, revoke-IsRevoked, consume-IsRevoked,
}
use pi_mob.Enrollment.{
  Text, BindInput, is_uuid, hash_pairing_passcode, hash_credential, bind_credential, bind_consumed,
  bind_hashed, bind_enrollment, credential_input, revoke_installation, revoke_row,
}
use pi_mob.Enrollment.Once.{
  Request, bind, revoke, touch, serve, serve_all, done-revocation, upsert_done-store,
}

module _ (sha256 : Text → ℕ) (id_text : ℕ → Text) (id : ℕ) (r : ℕ × ℕ) where
  bind_credential-IsRevoked :
      (i : BindInput) (k : ℕ) (c : Option ℕ) (s : Store)
      → IsRevoked id r s
      → IsRevoked id r (bind_credential sha256 id_text i k c s).0
  bind_credential-IsRevoked i k none s h = h
  bind_credential-IsRevoked i k (some c) s h =
      subst (IsRevoked id r)
        (sym (
          upsert_done-store sha256 id_text i
            (upsert_installation_credential s (credential_input sha256 id_text i k c))))
        (upsert-IsRevoked id r s h (credential_input sha256 id_text i k c))

  consumed-IsRevoked :
      (i : BindInput) (k : ℕ) (o : Store × Result StoreErrorCode Consumption)
      → IsRevoked id r o.0
      → IsRevoked id r (bind_consumed sha256 id_text i k o).0
  consumed-IsRevoked i k (s, ok consumed) h =
      bind_credential-IsRevoked i k (hash_credential sha256 id_text i.credential) s h
  consumed-IsRevoked i k (s, ok already_used) h = h
  consumed-IsRevoked i k (s, ok expired) h = h
  consumed-IsRevoked i k (s, ok unknown) h = h
  consumed-IsRevoked i k (s, err e) h = h

  bind_hashed-IsRevoked :
      (s : Store) (i : BindInput) (k : Option ℕ)
      → IsRevoked id r s
      → IsRevoked id r (bind_hashed sha256 id_text s i k).0
  bind_hashed-IsRevoked s i none h = h
  bind_hashed-IsRevoked s i (some k) h =
      consumed-IsRevoked i k (consume_enrollment_secret s k i.now (some i.installation_id))
        (consume-IsRevoked id r s h k i.now (some i.installation_id))

  row-IsRevoked :
      (k reason at : ℕ) (o : Option Credential) (s : Store)
      → IsRevoked id r s
      → IsRevoked id r (revoke_row k reason at o s).0
  row-IsRevoked k reason at none s h = h
  row-IsRevoked k reason at (some c) s h = elim (Bool-cases (is_some c.revoked)) [
    | inl e ↦ rw e h
    | inr e ↦ rw e (
        subst (IsRevoked id r)
          (sym (done-revocation sha256 id_text (revoke_installation_credential s k reason at)))
          (revoke-IsRevoked id r s h k reason at))
  ]

  serve-IsRevoked :
      (s : Store) (q : Request) → IsRevoked id r s → IsRevoked id r (serve sha256 id_text s q).0
  unfolding bind_enrollment revoke_installation
  serve-IsRevoked s (bind i) h = elim (Bool-cases (is_uuid (id_text i.installation_id))) [
    | inl e ↦
        rw e (bind_hashed-IsRevoked s i (hash_pairing_passcode sha256 id_text i.plain_passcode) h)
    | inr e ↦ rw e h
  ]
  serve-IsRevoked s (revoke k reason at) h =
      row-IsRevoked k reason at (find_installation_credential k s) s h
  serve-IsRevoked s (touch k at) h = touch-IsRevoked id r s h k at

  -- An installation that is revoked stays revoked, with the same time and reason, through any run of
  -- requests to bind, to revoke and to touch: also where it binds again with a fresh passcode and is
  -- given a fresh credential.
  pub serve_all-IsRevoked :
      (s : Store) (qs : List Request)
      → IsRevoked id r s
      → IsRevoked id r (serve_all sha256 id_text s qs).0
  serve_all-IsRevoked s [] h = h
  serve_all-IsRevoked s (q ∷ qs) h =
      serve_all-IsRevoked (serve sha256 id_text s q).0 qs (serve-IsRevoked s q h)
