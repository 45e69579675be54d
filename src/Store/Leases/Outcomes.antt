-- ===== src/Store/Leases/Outcomes.antt =====
-- packages/bridge/src/core/store.ts: what a controller that asks for a scope gets.
use pi_mob.Prelude.{
  ℕ, ◌+◌, ◌≡◌, refl, Bool, true, false, not, ◌&&◌, ◌||◌, Option, none, some, [], ◌∷◌, ◌++◌, arith,
  ltb, ◌==◌, if◌then◌else◌, has, is_some, Result, ok, err, first-update_last, first-update_other,
  others, has-update, has-or, first-append, first-has, Bool-cases, inl, inr, subst, sym, ap, ◌∙◌,
  first_test,
}
use pi_mob.Tables.{StreamId, stream_eq, stream_eq_iff, Lease, TakeoverReason}
use pi_mob.Store.{Store, conclude, store_error, conflict, StoreErrorCode}
use pi_mob.Store.Transactions.{transaction-open}
use pi_mob.Store.Leases.{
  LeaseMutation, is_open, lease, at_time, revoke, insert_lease, claim_found, mutate_at,
  apply_lease_mutation_tx, acquire_lease, revoke_current, new_lease, is_active, is_reclaim,
  is_takeover, reason_of, lease_ms, acquire_or, assert_controller,
}
use pi_mob.Store.Leases.Exclusive.{IsExclusive, IsExclusive-IsDurable}

module _ (s : Store) (c : IsExclusive s) (now : ℕ) (scope : StreamId) where
  revoked-own :
      (reason : TakeoverReason) (current : Option Lease)
      → lease scope s.leases ≡ current
      → lease scope (revoke_current now reason current s.leases) ≡ none
  revoked-own reason none e = e
  revoked-own reason (some l) e =
      first-update_last (λ o. o.lease_id) (revoke now (some reason)) (is_open scope) s.leases l
        (c.one_open scope) e (λ o. ground arith)

  pub revoked-other :
      (reason : TakeoverReason) (current : Option Lease) (other : StreamId)
      → lease scope s.leases ≡ current
      → stream_eq scope other ≡ false
      → lease other (revoke_current now reason current s.leases) ≡ lease other s.leases
  revoked-other reason none other e ne = refl
  revoked-other reason (some l) other e ne =
      first-update_other (λ o. o.lease_id) l.lease_id (revoke now (some reason)) (is_open other)
        s.leases
        (others (λ o. o.lease_id) (is_open scope) (is_open other) s.leases l c.unique_ids e closed)
        (λ o h. ground arith)
    where
      closed : is_open other l ≡ false
      closed = ground (
        arith,
        first_test (is_open scope) s.leases l e,
        stream_eq_iff l.scope_key scope,
        stream_eq_iff l.scope_key other,
        stream_eq_iff scope other,
      )

  revoked-fresh :
      (reason : TakeoverReason) (current : Option Lease) (id : ℕ)
      → has (λ o. o.lease_id == id) s.leases ≡ false
      → has (λ o. o.lease_id == id) (revoke_current now reason current s.leases) ≡ false
  revoked-fresh reason none id h = h
  revoked-fresh reason (some l) id h =
      has-update (λ o. o.lease_id == id) (λ o. o.lease_id == l.lease_id) (revoke now (some reason))
        s.leases (λ o. refl)
      ∙ h

  module _ (m : LeaseMutation) (id : ℕ) (mine : m.scope_key ≡ scope)
      (fresh : has (λ o. o.lease_id == id) s.leases ≡ false) where
    abbrev pub granted : Store
    granted = record s {
      leases =
          revoke_current now
            (reason_of m.action (is_reclaim now m.installation_id (lease scope s.leases)))
            (lease scope s.leases) s.leases
          ++ (new_lease m now id ∷ []);
    }

    abbrev pub is_refused : Bool
    is_refused =
        is_active now (lease scope s.leases)
        && (not (is_takeover m.action)
            && not (is_reclaim now m.installation_id (lease scope s.leases)))

    granted-lease :
        (other : StreamId)
        → lease other granted.leases
          ≡ (if stream_eq scope other then some (new_lease m now id) else lease other s.leases)
    granted-lease other =
        first-append (is_open other) (revoke_current now reason (lease scope s.leases) s.leases)
          (new_lease m now id ∷ [])
        ∙ elim (Bool-cases (stream_eq scope other)) [
          | inl e ↦
              let same : scope ≡ other = (stream_eq_iff scope other).0 e in
              let own : lease other (revoke_current now reason (lease scope s.leases) s.leases)
                  ≡ none =
                subst
                  (λ k. lease k (revoke_current now reason (lease scope s.leases) s.leases) ≡ none)
                  same (revoked-own reason (lease scope s.leases) refl) in
              rw (e, own, mine, e)
          | inr e ↦
              rw (e, revoked-other reason (lease scope s.leases) other refl e, mine, e)
                (same_lease (lease other s.leases))
        ]
      where
        reason : TakeoverReason
        reason = reason_of m.action (is_reclaim now m.installation_id (lease scope s.leases))

        same_lease : (o : Option Lease) → (if is_some o then o else none) ≡ o
        same_lease none = refl
        same_lease (some l) = refl

    granted-free :
        has
          (λ o. (o.lease_id == id) || is_open m.scope_key o)
          (revoke_current now
            (reason_of m.action (is_reclaim now m.installation_id (lease scope s.leases)))
            (lease scope s.leases)
            s.leases)
        ≡ false
    granted-free =
        let reason = reason_of m.action (is_reclaim now m.installation_id (lease scope s.leases)) in
        let rs = revoke_current now reason (lease scope s.leases) s.leases in
        rw (
          has-or (λ o. o.lease_id == id) (is_open m.scope_key) rs,
          revoked-fresh reason (lease scope s.leases) id fresh,
          mine,
          sym (first-has (is_open scope) rs),
          revoked-own reason (lease scope s.leases) refl,
        )

    claim_found-exact : claim_found m id now (lease scope s.leases) s ≡ (
        if is_refused then err (store_error conflict) else ok (granted, some (new_lease m now id)))
    unfolding claim_found insert_lease
    claim_found-exact = elim (Bool-cases is_refused) [
      | inl e ↦ rw e
      | inr e ↦ rw (e, granted-free) (ap (λ o. ok (granted, o)) own)
    ]
      where
        own : lease m.scope_key granted.leases ≡ some (new_lease m now id)
        own = granted-lease m.scope_key ∙ rw (mine, (stream_eq_iff scope scope).1 refl)

-- What `acquireLease` promises, refused or not.
abbrev pub Outcome :
    Bool
    → Store
    → StreamId
    → ℕ
    → ℕ
    → ℕ
    → Lease
    → Store × Result StoreErrorCode (Option Lease)
    → Type 0
Outcome true s scope id connection now new (t, r) = (t ≡ s) × (r ≡ err conflict)
Outcome false s scope id connection now new (t, r) =
    (r ≡ ok (some new))
    × ((other : StreamId)
        → lease other t.leases ≡ (if stream_eq scope other then some new else lease other s.leases))
    × ((i other at : ℕ)
        → assert_controller t scope i other at
          ≡ ((i == id) && ((other == connection) && ltb at (now + lease_ms))))

-- The mutation that `acquireLease` applies.
abbrev pub acquisition : StreamId → ℕ → ℕ → Option ℕ → Bool → LeaseMutation
acquisition scope installation connection now taking = record {
  action = acquire_or taking;
  scope_key = scope;
  installation_id = installation;
  connection_id = connection;
  now = now;
}

-- The scope has a lease that has not expired, of whichever controller, it is not taken over, and it
-- is not the caller's to reclaim.
abbrev pub is_held : Store → StreamId → ℕ → Option ℕ → Bool → Bool
is_held s scope installation now taking =
    is_active (at_time now s) (lease scope s.leases)
    && (not taking && not (is_reclaim (at_time now s) installation (lease scope s.leases)))

holds-new :
    (scope : StreamId) (t : Store) (new : Lease) (i other at : ℕ)
    → new.revoked_at ≡ none
    → lease scope t.leases ≡ some new
    → assert_controller t scope i other at
      ≡ ((i == new.lease_id) && ((other == new.connection_id) && ltb at new.expires_at))
unfolding assert_controller
holds-new scope t new i other at closed h = rw (h, closed) (ground arith)

pub is_takeover-acquire_or : (taking : Bool) → is_takeover (acquire_or taking) ≡ taking
is_takeover-acquire_or true = refl
is_takeover-acquire_or false = refl

module _ (s : Store) (scope : StreamId) (installation connection : ℕ) (now : Option ℕ)
    (taking : Bool) (id : ℕ) (c : IsExclusive s) (writes : s.writable ≡ true)
    (open_store : s.maintenance ≡ false)
    (fresh : has (λ o. o.lease_id == id) s.leases ≡ false) where
  abbrev mine : LeaseMutation
  mine = acquisition scope installation connection now taking

  abbrev opened : Store
  opened = record s { collecting = [] }

  opened-IsExclusive : IsExclusive opened
  opened-IsExclusive = IsExclusive-IsDurable s s.published [] s.writable c

  body :
      (b : Bool)
      → mutate_at (acquire_or b) mine id (at_time now s) opened
        ≡ claim_found mine id (at_time now s) (lease scope s.leases) opened
  unfolding mutate_at
  body true = refl
  body false = refl

  at_time-opened : (o : Option ℕ) → at_time o opened ≡ at_time o s
  at_time-opened none = refl
  at_time-opened (some n) = refl

  abbrev new_store : Store
  new_store = granted opened opened-IsExclusive (at_time now s) scope mine id refl fresh

  acquire_lease-exact :
      acquire_lease s scope installation connection now taking id
      ≡ conclude s (
          if is_held s scope installation now taking
          then err (store_error conflict)
          else ok (new_store, some (new_lease mine (at_time now s) id)))
  unfolding acquire_lease apply_lease_mutation_tx
  acquire_lease-exact =
      transaction-open (apply_lease_mutation_tx mine id) s writes open_store
      ∙ ap (conclude s)
          {y = (if is_held s scope installation now taking
            then err (store_error conflict)
            else ok (new_store, some (new_lease mine (at_time now s) id)))}
          (ap (λ n. mutate_at (acquire_or taking) mine id n opened) (at_time-opened now)
            ∙ body taking
            ∙ claim_found-exact opened opened-IsExclusive (at_time now s) scope mine id refl fresh
            ∙ rw (is_takeover-acquire_or taking))

  -- On exclusive leases of a store that takes writes and is not in maintenance, with a fresh id:
  -- `acquireLease` throws and changes nothing exactly if the scope has a lease that has not expired,
  -- the caller's own one included, it is not taken over, and it is not the caller's to reclaim. Else the caller gets the new lease, which is then the lease of
  -- its scope, no other scope's lease changes, and `assertController` passes for the new lease on its
  -- connection, for 45 seconds, and for no other lease.
  pub acquire_lease-Outcome :
      Outcome
        (is_held s scope installation now taking)
        s
        scope
        id
        connection
        (at_time now s)
        (new_lease (acquisition scope installation connection now taking) (at_time now s) id)
        (acquire_lease s scope installation connection now taking id)
  acquire_lease-Outcome =
      rw acquire_lease-exact (elim (Bool-cases (is_held s scope installation now taking)) [
        | inl e ↦ rw e (refl, refl)
        | inr e ↦ rw e (
          refl,
          leases,
          λ i other at.
              holds-new scope
                (record new_store {
                  published = s.published ++ new_store.collecting;
                  collecting = [];
                })
                (new_lease mine (at_time now s) id) i other at refl own
              ∙ refl,
        )
      ])
    where
      leases :
          (other : StreamId)
          → lease other new_store.leases ≡ (
              if stream_eq scope other
              then some (new_lease mine (at_time now s) id)
              else lease other s.leases)
      leases = granted-lease opened opened-IsExclusive (at_time now s) scope mine id refl fresh

      own : lease scope new_store.leases ≡ some (new_lease mine (at_time now s) id)
      own = leases scope ∙ rw ((stream_eq_iff scope scope).1 refl)
