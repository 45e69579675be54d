-- ===== src/Enrollment/Once.antt =====
-- packages/bridge/src/auth: requests of installations and of the host in any order.
use pi_mob.Prelude.{
  ℕ, ◌+◌, ◌≤◌, ◌≡◌, refl, sym, subst, ap, Bool, true, false, ◌&&◌, Option, none, some, List, [],
  ◌∷◌, ◌==◌, if◌then◌else◌, opt_eq, keep, length, Result, ok, err, arith, Bool-cases, inl, inr,
  is_some,
}
use pi_mob.Tables.{Credential}
use pi_mob.Store.{Store, StoreErrorCode}
use pi_mob.Store.Credentials.{
  Consumption, consumed, already_used, expired, unknown, find_installation_credential,
  consume_enrollment_secret, upsert_installation_credential, touch_installation_credential,
  revoke_installation_credential,
}
use pi_mob.Store.Credentials.Spending.{
  live, Spends, consume-Spends, upsert-live, touch-live, revoke-live,
}
use pi_mob.Enrollment.{
  Text, BindOutcome, bound, BindInput, is_uuid, hash_pairing_passcode, hash_credential,
  bind_credential, bind_consumed, bind_hashed, bind_enrollment, credential_input, upsert_done,
  revoke_installation, revoke_row, revocation_done,
}

pub data Request : Type 0 where
  bind : BindInput → Request
  revoke : (id reason at : ℕ) → Request
  touch : (id at : ℕ) → Request

abbrev pub is_bound : Result StoreErrorCode BindOutcome → Bool
is_bound (ok (bound c id)) = true
is_bound _ = false

abbrev one_if : Bool → ℕ
one_if true = 1
one_if false = 0

module _ (sha256 : Text → ℕ) (id_text : ℕ → Text) where
  abbrev bind_of : Store → BindInput → Store × Result StoreErrorCode BindOutcome
  bind_of s i = bind_enrollment sha256 id_text s i

  -- The store after a request, and whether a credential was handed out.
  abbrev pub serve : Store → Request → Store × Bool
  serve s (bind i) = ((bind_of s i).0, is_bound (bind_of s i).1)
  serve s (revoke id reason at) = ((revoke_installation s id reason at).0, false)
  serve s (touch id at) = ((touch_installation_credential s id at).0, false)

  abbrev add_request : Bool → Request → Store × List Request → Store × List Request
  add_request b q (s, qs) = (s, if b then q ∷ qs else qs)

  -- Requests in order, and those of them that were answered with a credential.
  abbrev pub serve_all : Store → List Request → Store × List Request
  serve_all s [] = (s, [])
  serve_all s (q ∷ qs) = add_request (serve s q).1 q (serve_all (serve s q).0 qs)

  -- A request whose passcode has the hash.
  abbrev pub uses : ℕ → Request → Bool
  uses h (bind i) = opt_eq (some h) (hash_pairing_passcode sha256 id_text i.plain_passcode)
  uses h _ = false

  pub done-revocation : (o : Store × Result StoreErrorCode Bool) → (revocation_done o).0 ≡ o.0
  done-revocation (s, ok b) = refl
  done-revocation (s, err e) = refl

  pub upsert_done-store :
      (i : BindInput) (o : Store × Result StoreErrorCode Credential)
      → (upsert_done sha256 id_text i o).0 ≡ o.0
  upsert_done-store i (s, ok c) = refl
  upsert_done-store i (s, err e) = refl

  bind_credential-live :
      (h : ℕ) (i : BindInput) (k : ℕ) (c : Option ℕ) (s : Store)
      → live h (bind_credential sha256 id_text i k c s).0 ≤ live h s
  bind_credential-live h i k none s = omega arith
  bind_credential-live h i k (some c) s =
      let up = upsert-live h s (credential_input sha256 id_text i k c) in
      subst (λ t. live h t ≤ live h s)
        (sym (
          upsert_done-store i
            (upsert_installation_credential s (credential_input sha256 id_text i k c))))
        up

  -- A request that is answered with a credential takes one of the rows of its hash.
  abbrev Takes : (h k : ℕ) → Store → Store × Result StoreErrorCode BindOutcome → Type 0
  Takes h k s o = live h o.0 + one_if (is_bound o.1 && h == k) ≤ live h s

  consumed-Takes :
      (h k : ℕ) (s : Store) (i : BindInput) (o : Store × Result StoreErrorCode Consumption)
      → Spends h k s o
      → Takes h k s (bind_consumed sha256 id_text i k o)
  consumed-Takes h k s i (t, ok consumed) p =
      let le = bind_credential-live h i k (hash_credential sha256 id_text i.credential) t in
      ground (arith, le, p)
  consumed-Takes h k s i (t, ok already_used) p = ground (arith, p)
  consumed-Takes h k s i (t, ok expired) p = ground (arith, p)
  consumed-Takes h k s i (t, ok unknown) p = ground (arith, p)
  consumed-Takes h k s i (t, err e) p = ground (arith, p)

  bind_hashed-Takes :
      (h : ℕ) (s : Store) (i : BindInput) (k : Option ℕ)
      → live h (bind_hashed sha256 id_text s i k).0
          + one_if (is_bound (bind_hashed sha256 id_text s i k).1 && opt_eq (some h) k)
        ≤ live h s
  bind_hashed-Takes h s i none = omega arith
  bind_hashed-Takes h s i (some k) =
      consumed-Takes h k s i (consume_enrollment_secret s k i.now (some i.installation_id))
        (consume-Spends h k i.now (some i.installation_id) s)

  serve-Takes :
      (h : ℕ) (s : Store) (q : Request)
      → live h (serve s q).0 + one_if ((serve s q).1 && uses h q) ≤ live h s
  unfolding bind_enrollment revoke_installation
  serve-Takes h s (bind i) = elim (Bool-cases (is_uuid (id_text i.installation_id))) [
    | inl e ↦ rw e (bind_hashed-Takes h s i (hash_pairing_passcode sha256 id_text i.plain_passcode))
    | inr e ↦ rw e (omega arith)
  ]
  serve-Takes h s (revoke id reason at) = go (find_installation_credential id s)
    where
      go : (o : Option Credential) → live h (revoke_row id reason at o s).0 + 0 ≤ live h s
      go none = omega arith
      go (some c) = elim (Bool-cases (is_some c.revoked)) [
        | inl e ↦ rw e (omega arith)
        | inr e ↦ rw e (
            let le = revoke-live h s id reason at in
            let same =
              ap (live h) (done-revocation (revoke_installation_credential s id reason at)) in
            omega (arith, le, same))
      ]
  serve-Takes h s (touch id at) = let le = touch-live h s id at in omega (arith, le)

  added :
      (h : ℕ) (b : Bool) (q : Request) (o : Store × List Request)
      → length (keep (uses h) (add_request b q o).1)
        ≡ one_if (b && uses h q) + length (keep (uses h) o.1)
  added h true q o = ground arith
  added h false q o = ground arith

  -- In any run of requests to bind, to revoke and to touch, the credentials that are handed out for a
  -- passcode's hash are no more than the unused secrets with that hash in the store before, whether
  -- calls fail or not. With one row of a hash, its key, a passcode binds one installation at most.
  pub serve_all-once :
      (h : ℕ) (s : Store) (qs : List Request) → length (keep (uses h) (serve_all s qs).1) ≤ live h s
  serve_all-once h s [] = omega arith
  serve_all-once h s (q ∷ qs) =
      let ih = serve_all-once h (serve s q).0 qs in
      let grown = added h (serve s q).1 q (serve_all (serve s q).0 qs) in
      let takes = serve-Takes h s q in omega (arith, ih, grown, takes)
