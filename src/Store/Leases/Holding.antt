-- ===== src/Store/Leases/Holding.antt =====
-- packages/bridge/src/core/store.ts: what the rows of a change of the leases keep of
-- a scope's lease.
use pi_mob.Prelude.{
  ℕ, ◌≡◌, refl, Bool, true, false, not, ◌&&◌, ◌||◌, Option, none, some, List, [], ◌∷◌, ◌++◌, arith,
  leb, ◌==◌, has, update, is_some, Result, ok, err, Bool-cases, inl, inr, subst, sym, ◌∙◌,
  first-append, first_test, first-update_other, others,
}
use pi_mob.Tables.{StreamId, stream_eq, stream_eq_iff, Lease}
use pi_mob.Store.{Store, Tx, Fault, conclude, transaction, store_error, broken_constraint}
use pi_mob.Store.Transactions.{Keeps, transaction-cases}
use pi_mob.Store.Leases.{
  LeaseMutation, is_open, lease, at_time, insert_lease, release_found, claim_found, revoke_current,
  is_active, is_reclaim, is_takeover, reason_of, new_lease,
}
use pi_mob.Store.Leases.Exclusive.{IsExclusive, LeaseStep, acquires, releases}
use pi_mob.Store.Leases.Outcomes.{revoked-other}

-- The scope's lease is still the one given, of the same controller.
abbrev pub HeldBy : Lease → Option Lease → Type 0
HeldBy l none = ⊥
HeldBy l (some m) =
    (m.lease_id ≡ l.lease_id)
    × (m.installation_id ≡ l.installation_id)
    × (m.connection_id ≡ l.connection_id)

-- The steps that can end a scope's lease: to acquire the scope by a takeover, after the lease has
-- expired, or as a reclaim, and the release by its holder.
abbrev pub may_end : StreamId → Lease → {s t : Store} → LeaseStep s t → Bool
may_end scope l (acquires s other installation connection now taking id) =
    stream_eq other scope
    && (taking
        || (leb l.expires_at (at_time now s) || is_reclaim (at_time now s) installation (some l)))
may_end scope l (releases s other id installation connection now) =
    stream_eq other scope
    && ((l.lease_id == id)
        && ((l.installation_id == installation) && (l.connection_id == connection)))
may_end scope l _ = false

-- A change of rows that changes no row's id, controller or scope, and neither opens nor revokes one.
pub record IsSteady (f : Lease → Lease) : Type 0 where
  pub same : (m : Lease) → HeldBy m (some (f m))
  pub same_open : (scope : StreamId) (m : Lease) → is_open scope (f m) ≡ is_open scope m

module _ (scope : StreamId) (l : Lease) where
  abbrev pub Holds : Store → Type 0
  Holds s = HeldBy l (lease scope s.leases)

  pub held_after :
      {A : Type 0} (body : Tx A) (s : Store)
      → Holds s
      → Keeps Holds (body (record s { collecting = [] }))
      → Holds (transaction body s).0
  held_after {A = A} body s h k = elim (transaction-cases body s) [
    | inl e ↦ subst (λ o. Holds o.0) (sym e) h
    | inr e ↦ subst (λ o. Holds o.0) (sym e) (go (body (record s { collecting = [] })) k)
  ]
    where
      go : (o : Result Fault (Store × A)) → Keeps Holds o → Holds (conclude s o).0
      go (ok (t, a)) k = k
      go (err (store_error code)) k = h
      go (err broken_constraint) k = h

  pub update-HeldBy :
      (test : Lease → Bool) (f : Lease → Lease)
      → IsSteady f
      → (ls : List Lease) → HeldBy l (lease scope ls)
      → HeldBy l (lease scope (update test f ls))
  update-HeldBy test f g [] h = h
  update-HeldBy test f g (x ∷ xs) h = elim (Bool-cases (is_open scope x)) [
    | inl o ↦ elim (Bool-cases (test x)) [
      | inl e ↦
          let same = g.same x in
          let here : HeldBy l (some x) = rw o at h in
          rw (e, g.same_open scope x, o) (same.0 ∙ here.0, same.1 ∙ here.1, same.2 ∙ here.2)
      | inr e ↦ rw (e, o) (rw o at h)
    ]
    | inr o ↦ elim (Bool-cases (test x)) [
      | inl e ↦ rw (e, g.same_open scope x, o) (update-HeldBy test f g xs (rw o at h))
      | inr e ↦ rw (e, o) (update-HeldBy test f g xs (rw o at h))
    ]
  ]

  appended :
      (rs : List Lease)
      → lease scope rs ≡ some l
      → (n : Lease) → lease scope (rs ++ (n ∷ [])) ≡ some l
  appended rs e n = first-append (is_open scope) rs (n ∷ []) ∙ rw e refl

  module _ (s : Store) (c : IsExclusive s) (held : lease scope s.leases ≡ some l) where
    pub held_now : Holds s
    held_now = subst (HeldBy l) (sym held) (refl, refl, refl)

    pub claim_other :
        (m : LeaseMutation) (id now : ℕ)
        → stream_eq m.scope_key scope ≡ false
        → Keeps Holds (claim_found m id now (lease m.scope_key s.leases) s)
    unfolding claim_found insert_lease
    claim_other m id now ne =
        let current = lease m.scope_key s.leases in
        let reason = reason_of m.action (is_reclaim now m.installation_id current) in
        let rs = revoke_current now reason current s.leases in
        let still : lease scope rs ≡ some l =
          revoked-other s c now m.scope_key reason current scope refl ne ∙ held in
        elim (Bool-cases (
          is_active now current
          && (not (is_takeover m.action) && not (is_reclaim now m.installation_id current)))) [
            | inl e ↦ rw (e, Keeps) tt
            | inr e ↦
                elim (Bool-cases (has (λ o. (o.lease_id == id) || is_open m.scope_key o) rs)) [
                  | inl k ↦ rw (e, k, Keeps) tt
                  | inr k ↦
                      rw (e, k, Keeps)
                        (subst (HeldBy l) (sym (appended rs still (new_lease m now id)))
                          (refl, refl, refl))
                ]
          ]

    pub claim_own :
        (m : LeaseMutation) (id now : ℕ)
        → is_takeover m.action ≡ false
        → leb l.expires_at now ≡ false
        → is_reclaim now m.installation_id (some l) ≡ false
        → Keeps Holds (claim_found m id now (some l) s)
    unfolding claim_found
    claim_own m id now t e r =
        let opened : is_open scope l ≡ true = first_test (is_open scope) s.leases l held in
        let active : is_active now (some l) ≡ true = ground (arith, opened, e) in
        rw (active, t, r, Keeps) tt

    pub release_other :
        (m : LeaseMutation) (now : ℕ) (o : Option Lease)
        → lease m.scope_key s.leases ≡ o
        → stream_eq m.scope_key scope ≡ false
        → Keeps Holds (release_found m now o s)
    unfolding release_found
    release_other m now none e ne = tt
    release_other m now (some r) e ne =
        elim (Bool-cases (
          not (is_some r.revoked_at)
          && ((r.installation_id == m.installation_id) && (r.connection_id == m.connection_id)))) [
            | inl k ↦
                rw (k, Keeps)
                  (subst (HeldBy l)
                    (sym (
                      first-update_other (λ o. o.lease_id) r.lease_id
                        (λ o. record o { revoked_at = some now }) (is_open scope) s.leases
                        (others (λ o. o.lease_id) (is_open m.scope_key) (is_open scope) s.leases r
                          c.unique_ids e closed)
                        (λ o h. ground arith)
                      ∙ held))
                    (refl, refl, refl))
            | inr k ↦ rw (k, Keeps) tt
          ]
      where
        closed : is_open scope r ≡ false
        closed = ground (
          arith,
          first_test (is_open m.scope_key) s.leases r e,
          stream_eq_iff r.scope_key m.scope_key,
          stream_eq_iff r.scope_key scope,
          stream_eq_iff m.scope_key scope,
        )
