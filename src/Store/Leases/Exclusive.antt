-- ===== src/Store/Leases/Exclusive.antt =====
-- packages/bridge/src/core/store.ts: every operation on the leases keeps at most one open lease of
-- a scope.
use pi_mob.Prelude.{
  ℕ, ◌+◌, ◌≤◌, ◌≡◌, refl, Bool, true, false, not, ◌&&◌, ◌||◌, Option, none, some, [], ◌∷◌, ◌++◌,
  arith, ◌==◌, keep, has, update, is_some, Result, ok, err, length, IsUnique, update-IsUnique,
  snoc-IsUnique, keep-update-le, keep-snoc-le, keep-snoc_no, has-keep, has-or, Bool-cases, inl, inr,
  subst, sym, ◌∙◌, ◌⊎◌,
}
use pi_mob.Tables.{StreamId, stream_eq, stream_eq_iff, Lease, TakeoverReason}
use pi_mob.Store.{Store, Tx, Fault, transaction}
use pi_mob.Store.Transactions.{IsDurable, Keeps, transaction-keeps}
use pi_mob.Store.Leases.{
  LeaseMutation, LeaseAction, acquire, takeover, release, is_open, lease, at_time, revoke,
  insert_lease, release_found, claim_found, mutate_at, apply_lease_mutation_tx, acquire_lease,
  renew_found, renew_lease, disconnect, disconnect_tx, disconnect_lease, disconnect_connection,
  release_checked, release_lease, revoke_current, new_lease, is_stale, is_active, is_reclaim,
  is_takeover, reason_of, lease_ms,
}

-- The ids are unique, and a scope has at most one lease that is not revoked.
pub record IsExclusive (s : Store) : Type 0 where
  pub unique_ids : IsUnique (λ l. l.lease_id) s.leases
  pub one_open : (scope : StreamId) → length (keep (is_open scope) s.leases) ≤ 1

pub IsExclusive-IsDurable : IsDurable IsExclusive
IsExclusive-IsDurable s published collecting w c = record {
  unique_ids = c.unique_ids;
  one_open = c.one_open;
}

-- A change of a lease that keeps its id and its scope, and opens none.
pub record IsClosing (f : Lease → Lease) : Type 0 where
  pub same_id : (l : Lease) → (f l).lease_id ≡ l.lease_id
  pub still_closed :
      (scope : StreamId) (l : Lease) → is_open scope l ≡ false → is_open scope (f l) ≡ false

pub update-IsExclusive :
    (s : Store) (test : Lease → Bool) (f : Lease → Lease)
    → IsClosing f
    → IsExclusive s
    → IsExclusive (record s { leases = update test f s.leases })
update-IsExclusive s test f g c = record {
  unique_ids = update-IsUnique (λ l. l.lease_id) test f s.leases g.same_id c.unique_ids;
  one_open = λ scope.
      let k = keep-update-le (is_open scope) test f s.leases (g.still_closed scope) in
      omega (arith, c.one_open scope);
}

-- A row that the constraints admit.
insert_lease-Keeps : (l : Lease) (s : Store) → IsExclusive s → Keeps IsExclusive (insert_lease l s)
unfolding insert_lease
insert_lease-Keeps l s c =
    elim (Bool-cases (has (λ o. (o.lease_id == l.lease_id) || is_open l.scope_key o) s.leases)) [
      | inl e ↦ rw e tt
      | inr e ↦
          let parts : (has (λ o. o.lease_id == l.lease_id) s.leases
                || has (is_open l.scope_key) s.leases)
              ≡ false =
            sym (has-or (λ o. o.lease_id == l.lease_id) (is_open l.scope_key) s.leases) ∙ e in
          rw e (record {
            unique_ids =
                snoc-IsUnique (λ o. o.lease_id) s.leases l (ground (arith, parts)) c.unique_ids;
            one_open = λ scope.
                one scope (ground (arith, parts)) (Bool-cases (stream_eq l.scope_key scope));
          })
    ]
  where
    one :
        (scope : StreamId)
        → has (is_open l.scope_key) s.leases ≡ false
        → (stream_eq l.scope_key scope ≡ true) ⊎ (stream_eq l.scope_key scope ≡ false)
        → length (keep (is_open scope) (s.leases ++ (l ∷ []))) ≤ 1
    one scope h (inl e) =
        let same = (stream_eq_iff l.scope_key scope).0 e in
        let zero_open = has-keep (is_open l.scope_key) s.leases h in
        subst (λ k. length (keep (is_open k) (s.leases ++ (l ∷ []))) ≤ 1) same
          (omega (arith, keep-snoc-le (is_open l.scope_key) s.leases l, zero_open))
    one scope h (inr e) =
        let k = keep-snoc_no (is_open scope) s.leases l (rw e refl) in
        omega (arith, k, c.one_open scope)

revoke-IsClosing : (now : ℕ) (reason : Option TakeoverReason) → IsClosing (revoke now reason)
revoke-IsClosing now reason = record {
  same_id = λ l. refl;
  still_closed = λ scope l h. ground arith;
}

release-IsClosing : (now : ℕ) → IsClosing (λ o. record o { revoked_at = some now })
release-IsClosing now = record { same_id = λ l. refl; still_closed = λ scope l h. ground arith }

renew-IsClosing : (until : ℕ) → IsClosing (λ o. record o { expires_at = until })
renew-IsClosing until = record { same_id = λ l. refl; still_closed = λ scope l h. h }

disconnect-IsClosing : (now : ℕ) → IsClosing (disconnect now)
disconnect-IsClosing now = record { same_id = λ l. refl; still_closed = λ scope l h. h }

revoke_current-IsExclusive :
    (now : ℕ) (reason : TakeoverReason) (current : Option Lease) (s : Store)
    → IsExclusive s
    → IsExclusive (record s { leases = revoke_current now reason current s.leases })
revoke_current-IsExclusive now reason none s c = record {
  unique_ids = c.unique_ids;
  one_open = c.one_open;
}
revoke_current-IsExclusive now reason (some l) s c =
    update-IsExclusive s (λ o. o.lease_id == l.lease_id) (revoke now (some reason))
      (revoke-IsClosing now (some reason)) c

release_found-Keeps :
    (m : LeaseMutation) (now : ℕ) (current : Option Lease) (s : Store)
    → IsExclusive s
    → Keeps IsExclusive (release_found m now current s)
unfolding release_found
release_found-Keeps m now none s c = tt
release_found-Keeps m now (some l) s c =
    elim (Bool-cases (
      not (is_some l.revoked_at)
      && ((l.installation_id == m.installation_id) && (l.connection_id == m.connection_id)))) [
        | inl e ↦ rw e (
            update-IsExclusive s (λ o. o.lease_id == l.lease_id)
              (λ o. record o { revoked_at = some now }) (release-IsClosing now) c)
        | inr e ↦ rw e tt
      ]

inserted-Keeps :
    (l : Lease) (scope : StreamId) (o : Result Fault (Store × Unit {0}))
    → Keeps IsExclusive o
    → Keeps IsExclusive {A = Option Lease}
        (elim o [ err f ↦ err f | ok (t, _) ↦ ok (t, lease scope t.leases) ])
inserted-Keeps l scope (ok (t, u)) k = k
inserted-Keeps l scope (err f) k = tt

claim_found-Keeps :
    (m : LeaseMutation) (id now : ℕ) (current : Option Lease) (s : Store)
    → IsExclusive s
    → Keeps IsExclusive (claim_found m id now current s)
unfolding claim_found
claim_found-Keeps m id now current s c =
    elim (Bool-cases (
      is_active now current
      && (not (is_takeover m.action) && not (is_reclaim now m.installation_id current)))) [
        | inl e ↦ rw e tt
        | inr e ↦
            let reason = reason_of m.action (is_reclaim now m.installation_id current) in
            let s' = record s { leases = revoke_current now reason current s.leases } in
            rw e (
              inserted-Keeps (new_lease m now id) m.scope_key (insert_lease (new_lease m now id) s')
                (insert_lease-Keeps (new_lease m now id) s'
                  (revoke_current-IsExclusive now reason current s c)))
      ]

mutate_at-Keeps :
    (a : LeaseAction) (m : LeaseMutation) (id now : ℕ) (s : Store)
    → IsExclusive s
    → Keeps IsExclusive (mutate_at a m id now s)
unfolding mutate_at
mutate_at-Keeps acquire m id now s c = claim_found-Keeps m id now (lease m.scope_key s.leases) s c
mutate_at-Keeps takeover m id now s c = claim_found-Keeps m id now (lease m.scope_key s.leases) s c
mutate_at-Keeps release m id now s c = release_found-Keeps m now (lease m.scope_key s.leases) s c

pub apply_lease_mutation_tx-Keeps :
    (m : LeaseMutation) (id : ℕ) (s : Store)
    → IsExclusive s
    → Keeps IsExclusive (apply_lease_mutation_tx m id s)
unfolding apply_lease_mutation_tx
apply_lease_mutation_tx-Keeps m id s c = mutate_at-Keeps m.action m id (at_time m.now s) s c

renew_found-Keeps :
    (scope : StreamId) (id connection now : ℕ) (current : Option Lease) (s : Store)
    → IsExclusive s
    → Keeps IsExclusive (renew_found scope id connection now current s)
unfolding renew_found
renew_found-Keeps scope id connection now none s c = tt
renew_found-Keeps scope id connection now (some l) s c =
    elim (Bool-cases (is_stale id connection now l)) [
      | inl e ↦ rw e tt
      | inr e ↦ rw e (
          update-IsExclusive s (λ o. o.lease_id == id)
            (λ o. record o { expires_at = now + lease_ms }) (renew-IsClosing (now + lease_ms)) c)
    ]

release_checked-Keeps :
    (scope : StreamId) (id installation connection : ℕ) (now : Option ℕ) (current : Option Lease)
    (s : Store)
    → IsExclusive s
    → Keeps IsExclusive (release_checked scope id installation connection now current s)
unfolding release_checked
release_checked-Keeps scope id installation connection now none s c = tt
release_checked-Keeps scope id installation connection now (some l) s c =
    elim (Bool-cases (
      (l.lease_id == id)
      && ((l.installation_id == installation) && (l.connection_id == connection)))) [
        | inl e ↦ rw e (
            apply_lease_mutation_tx-Keeps
              (record {
                action = release;
                scope_key = scope;
                installation_id = installation;
                connection_id = connection;
                now = now;
              })
              0 s c)
        | inr e ↦ rw e tt
      ]

-- One operation of the store on the leases, whether it returns or throws.
pub data LeaseStep : Store → Store → Type 0 where
  acquires :
      (s : Store) (scope : StreamId) (installation connection : ℕ) (now : Option ℕ) (taking : Bool)
      (id : ℕ)
      → LeaseStep s (acquire_lease s scope installation connection now taking id).0
  renews :
      (s : Store) (scope : StreamId) (id connection : ℕ) (now : Option ℕ)
      → LeaseStep s (renew_lease s scope id connection now).0
  disconnects :
      (s : Store) (scope : StreamId) (connection : ℕ) (now : Option ℕ)
      → LeaseStep s (disconnect_lease s scope connection now).0
  disconnects_all :
      (s : Store) (connection : ℕ) (now : Option ℕ)
      → LeaseStep s (disconnect_connection s connection now).0
  releases :
      (s : Store) (scope : StreamId) (id installation connection : ℕ) (now : Option ℕ)
      → LeaseStep s (release_lease s scope id installation connection now).0

kept :
    {A : Type 0} (body : Tx A) (s : Store)
    → ((t : Store) → IsExclusive t → Keeps IsExclusive (body t))
    → IsExclusive s
    → IsExclusive (transaction body s).0
kept body s = transaction-keeps IsExclusive IsExclusive-IsDurable body s

-- Every operation on the leases, returned, thrown or refused, leaves unique ids and at most one
-- lease of a scope that is not revoked.
pub LeaseStep-IsExclusive : (s t : Store) → LeaseStep s t → IsExclusive s → IsExclusive t
unfolding acquire_lease renew_lease disconnect_lease disconnect_connection release_lease
    disconnect_tx
LeaseStep-IsExclusive _ _ (acquires s scope installation connection now taking id) c =
    kept _ s (λ t. apply_lease_mutation_tx-Keeps _ id t) c
LeaseStep-IsExclusive _ _ (renews s scope id connection now) c =
    kept _ s (λ t. renew_found-Keeps scope id connection (at_time now t) (lease scope t.leases) t) c
LeaseStep-IsExclusive _ _ (disconnects s scope connection now) c =
    kept _ s
      (λ t.
        update-IsExclusive t (λ l. is_open scope l && (l.connection_id == connection))
          (disconnect (at_time now t)) (disconnect-IsClosing (at_time now t)))
      c
LeaseStep-IsExclusive _ _ (disconnects_all s connection now) c =
    kept _ s
      (λ t.
        update-IsExclusive t (λ l. (l.connection_id == connection) && not (is_some l.revoked_at))
          (disconnect (at_time now t)) (disconnect-IsClosing (at_time now t)))
      c
LeaseStep-IsExclusive _ _ (releases s scope id installation connection now) c =
    kept _ s
      (λ t. release_checked-Keeps scope id installation connection now (lease scope t.leases) t) c
