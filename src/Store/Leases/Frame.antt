-- ===== src/Store/Leases/Frame.antt =====
-- packages/bridge/src/core/store.ts: a mutation of the leases touches no other table.
use pi_mob.Prelude.{
  ℕ, ◌≡◌, refl, not, ◌&&◌, ◌||◌, Option, none, some, ◌==◌, has, is_some, Bool-cases, inl, inr,
}
use pi_mob.Tables.{Lease}
use pi_mob.Store.{Store}
use pi_mob.Store.Transactions.{Keeps}
use pi_mob.Store.Leases.{
  LeaseMutation, LeaseAction, acquire, takeover, release, is_open, lease, at_time, insert_lease,
  release_found, claim_found, mutate_at, apply_lease_mutation_tx, revoke_current, is_active,
  is_reclaim, is_takeover, reason_of,
}

abbrev pub IsLeaseFramed : Store → Store → Type 0
IsLeaseFramed s t = t ≡ record s { leases = t.leases }

release_framed :
    (m : LeaseMutation) (now : ℕ) (o : Option Lease) (s : Store)
    → Keeps (IsLeaseFramed s) (release_found m now o s)
unfolding release_found
release_framed m now none s = tt
release_framed m now (some l) s =
    elim (Bool-cases (
      not (is_some l.revoked_at)
      && ((l.installation_id == m.installation_id) && (l.connection_id == m.connection_id)))) [
        | inl e ↦ rw (e, Keeps) refl
        | inr e ↦ rw (e, Keeps) tt
      ]

claim_framed :
    (m : LeaseMutation) (id now : ℕ) (o : Option Lease) (s : Store)
    → Keeps (IsLeaseFramed s) (claim_found m id now o s)
unfolding claim_found insert_lease
claim_framed m id now o s =
    elim (Bool-cases (
      is_active now o
      && (not (is_takeover m.action) && not (is_reclaim now m.installation_id o)))) [
        | inl e ↦ rw (e, Keeps) tt
        | inr e ↦
            elim (Bool-cases (
              has (λ l. (l.lease_id == id) || is_open m.scope_key l)
                (revoke_current now (reason_of m.action (is_reclaim now m.installation_id o)) o
                  s.leases))) [ inl k ↦ rw (e, k, Keeps) tt | inr k ↦ rw (e, k, Keeps) refl ]
      ]

mutate_framed :
    (a : LeaseAction) (m : LeaseMutation) (id now : ℕ) (s : Store)
    → Keeps (IsLeaseFramed s) (mutate_at a m id now s)
unfolding mutate_at
mutate_framed acquire m id now s = claim_framed m id now (lease m.scope_key s.leases) s
mutate_framed takeover m id now s = claim_framed m id now (lease m.scope_key s.leases) s
mutate_framed release m id now s = release_framed m now (lease m.scope_key s.leases) s

pub apply_lease_mutation_tx-IsLeaseFramed :
    (m : LeaseMutation) (id : ℕ) (s : Store)
    → Keeps (IsLeaseFramed s) (apply_lease_mutation_tx m id s)
unfolding apply_lease_mutation_tx
apply_lease_mutation_tx-IsLeaseFramed m id s = mutate_framed m.action m id (at_time m.now s) s
