-- ===== src/Store/Leases.antt =====
-- packages/bridge/src/core/store.ts and domain.ts: the leases of the controllers.
pub mod Exclusive
pub mod Outcomes
pub mod Frame
pub mod Holding
pub mod Keeping
mod Tests
use pi_mob.Prelude.{
  ℕ, ◌+◌, Bool, true, false, not, ◌&&◌, ◌||◌, Option, none, some, List, [], ◌∷◌, ◌++◌, ltb, leb,
  ◌==◌, if◌then◌else◌, first, has, update, is_some, Result, ok, err,
}
use pi_mob.Tables.{
  StreamId, stream_eq, Lease, TakeoverReason, explicit_takeover, same_installation_reclaim, expired,
}
use pi_mob.Store.{Store, Tx, transaction, conflict, StoreErrorCode, broken_constraint, store_error}

pub data LeaseAction : Type 0 where
  acquire takeover release : LeaseAction

pub record LeaseMutation : Type 0 where
  pub action : LeaseAction
  pub scope_key : StreamId
  pub installation_id : ℕ
  pub connection_id : ℕ
  -- None for the store's clock.
  pub now : Option ℕ

abbrev pub is_open : StreamId → Lease → Bool
is_open scope l = stream_eq l.scope_key scope && not (is_some l.revoked_at)

-- `lease`: the row of the scope that is not revoked, of which the index
-- `controller_leases_one_active_scope` admits one.
abbrev pub lease : StreamId → List Lease → Option Lease
lease scope = first (is_open scope)

abbrev pub lease_by_id : ℕ → List Lease → Option Lease
lease_by_id id = first (λ l. l.lease_id == id)

abbrev pub at_time : Option ℕ → Store → ℕ
at_time none s = s.now
at_time (some n) s = n

abbrev pub revoke : ℕ → Option TakeoverReason → Lease → Lease
revoke now reason l = record l { revoked_at = some now; takeover_reason = reason }

-- `INSERT INTO controller_leases`: the key, and one row of a scope that is not revoked.
insert_lease : Lease → Tx (Unit {0})
insert_lease l s =
    if has (λ o. (o.lease_id == l.lease_id) || is_open l.scope_key o) s.leases
    then err broken_constraint
    else ok (record s { leases = s.leases ++ (l ∷ []) }, tt)

abbrev is_active : ℕ → Option Lease → Bool
is_active now none = false
is_active now (some l) = not (is_some l.revoked_at) && ltb now l.expires_at

abbrev is_reclaimable : ℕ → Option ℕ → Bool
is_reclaimable now none = false
is_reclaimable now (some until) = leb now until

abbrev is_reclaim : ℕ → ℕ → Option Lease → Bool
is_reclaim now installation none = false
is_reclaim now installation (some l) =
    l.installation_id == installation && is_reclaimable now l.reclaimable_until

abbrev is_takeover : LeaseAction → Bool
is_takeover takeover = true
is_takeover _ = false

-- Why the lease before is revoked.
abbrev reason_of : LeaseAction → Bool → TakeoverReason
reason_of takeover reclaim = explicit_takeover
reason_of _ true = same_installation_reclaim
reason_of _ false = expired

abbrev new_reason : LeaseAction → Option TakeoverReason
new_reason takeover = some explicit_takeover
new_reason _ = none

abbrev lease_ms : ℕ
lease_ms = 45000

abbrev reclaim_ms : ℕ
reclaim_ms = 60000

abbrev new_lease : LeaseMutation → ℕ → ℕ → Lease
new_lease m now id = record {
  scope_key = m.scope_key;
  lease_id = id;
  installation_id = m.installation_id;
  connection_id = m.connection_id;
  expires_at = now + lease_ms;
  reclaimable_until = none;
  disconnected_at = none;
  revoked_at = none;
  takeover_reason = new_reason m.action;
}

abbrev revoke_current : ℕ → TakeoverReason → Option Lease → List Lease → List Lease
revoke_current now reason none ls = ls
revoke_current now reason (some l) ls =
    update (λ o. o.lease_id == l.lease_id) (revoke now (some reason)) ls

pub release_found : LeaseMutation → ℕ → Option Lease → Tx (Option Lease)
release_found m now none s = err (store_error conflict)
release_found m now (some l) s =
    if not (is_some l.revoked_at)
      && ((l.installation_id == m.installation_id) && (l.connection_id == m.connection_id))
    then ok (
      record s {
        leases =
            update (λ o. o.lease_id == l.lease_id) (λ o. record o { revoked_at = some now })
              s.leases;
      },
      none,
    )
    else err (store_error conflict)

pub claim_found : LeaseMutation → ℕ → ℕ → Option Lease → Tx (Option Lease)
claim_found m id now current s =
    let reclaim = is_reclaim now m.installation_id current in
    if is_active now current && (not (is_takeover m.action) && not reclaim)
    then err (store_error conflict)
    else let s' = record s {
      leases = revoke_current now (reason_of m.action reclaim) current s.leases;
    } in
      elim (insert_lease (new_lease m now id) s') [
        | err f ↦ err f
        | ok (t, _) ↦ ok (t, lease m.scope_key t.leases)
      ]

mutate_at : LeaseAction → LeaseMutation → ℕ → ℕ → Tx (Option Lease)
mutate_at release m id now s = release_found m now (lease m.scope_key s.leases) s
mutate_at _ m id now s = claim_found m id now (lease m.scope_key s.leases) s

-- `applyLeaseMutationTx`, given the id that `uuid()` returns.
pub apply_lease_mutation_tx : LeaseMutation → ℕ → Tx (Option Lease)
apply_lease_mutation_tx m id s = mutate_at m.action m id (at_time m.now s) s

abbrev acquire_or : Bool → LeaseAction
acquire_or true = takeover
acquire_or false = acquire

-- `acquireLease`.
pub acquire_lease :
    Store → StreamId → ℕ → ℕ → Option ℕ → Bool → ℕ → Store × Result StoreErrorCode (Option Lease)
acquire_lease s scope installation connection now taking id =
    transaction
      (apply_lease_mutation_tx
        (record {
          action = acquire_or taking;
          scope_key = scope;
          installation_id = installation;
          connection_id = connection;
          now = now;
        })
        id)
      s

-- The test of `renewLease` and of `assertController`: the caller holds the scope.
abbrev is_stale : ℕ → ℕ → ℕ → Lease → Bool
is_stale id connection now l =
    not (l.lease_id == id)
    || (not (l.connection_id == connection) || (is_some l.revoked_at || leb l.expires_at now))

renew_found : StreamId → ℕ → ℕ → ℕ → Option Lease → Tx (Option Lease)
renew_found scope id connection now none s = err (store_error conflict)
renew_found scope id connection now (some l) s =
    if is_stale id connection now l
    then err (store_error conflict)
    else let s' = record s {
      leases =
          update (λ o. o.lease_id == id) (λ o. record o { expires_at = now + lease_ms }) s.leases;
    } in
      ok (s', lease scope s'.leases)

-- `renewLease`.
pub renew_lease : Store → StreamId → ℕ → ℕ → Option ℕ → Store × Result StoreErrorCode (Option Lease)
renew_lease s scope id connection now =
    transaction (λ t. renew_found scope id connection (at_time now t) (lease scope t.leases) t) s

abbrev disconnect : ℕ → Lease → Lease
disconnect now l = record l {
  disconnected_at = some now;
  reclaimable_until = some (now + reclaim_ms);
}

disconnect_tx : (Lease → Bool) → Option ℕ → Tx (Unit {0})
disconnect_tx test now s =
    ok (record s { leases = update test (disconnect (at_time now s)) s.leases }, tt)

-- `disconnectLease`.
pub disconnect_lease : Store → StreamId → ℕ → Option ℕ → Store × Result StoreErrorCode (Unit {0})
disconnect_lease s scope connection now =
    transaction (disconnect_tx (λ l. is_open scope l && (l.connection_id == connection)) now) s

-- `disconnectConnection`.
pub disconnect_connection : Store → ℕ → Option ℕ → Store × Result StoreErrorCode (Unit {0})
disconnect_connection s connection now =
    transaction
      (disconnect_tx (λ l. (l.connection_id == connection) && not (is_some l.revoked_at)) now) s

release_checked : StreamId → ℕ → ℕ → ℕ → Option ℕ → Option Lease → Tx (Option Lease)
release_checked scope id installation connection now none s = err (store_error conflict)
release_checked scope id installation connection now (some l) s =
    if (l.lease_id == id)
      && ((l.installation_id == installation) && (l.connection_id == connection))
    then apply_lease_mutation_tx
        (record {
          action = release;
          scope_key = scope;
          installation_id = installation;
          connection_id = connection;
          now = now;
        })
        0 s
    else err (store_error conflict)

-- `releaseLease`; a release makes no id.
pub release_lease :
    Store → StreamId → ℕ → ℕ → ℕ → Option ℕ → Store × Result StoreErrorCode (Option Lease)
release_lease s scope id installation connection now =
    transaction (λ t. release_checked scope id installation connection now (lease scope t.leases) t)
      s

abbrev holds : ℕ → ℕ → ℕ → Option Lease → Bool
holds id connection now none = false
holds id connection now (some l) = not (is_stale id connection now l)

-- `assertController`: true is a return, false a thrown `conflict`.
pub assert_controller : Store → StreamId → ℕ → ℕ → ℕ → Bool
assert_controller s scope id connection now = holds id connection now (lease scope s.leases)
