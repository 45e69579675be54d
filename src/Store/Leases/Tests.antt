-- ===== src/Store/Leases/Tests.antt =====
-- packages/bridge/src/core/store.ts: the theorems on the leases, on a host scope that is free.
use pi_mob.Prelude.{refl, false, none, arith, [], ◌∷◌}
use pi_mob.Tables.{host, Lease}
use pi_mob.Store.{Store}
use pi_mob.Store.Samples.{empty_store}
use pi_mob.Store.Leases.{acquire_lease, new_lease}
use pi_mob.Store.Leases.Exclusive.{IsExclusive}
use pi_mob.Store.Leases.Outcomes.{Outcome, acquisition, is_held, acquire_lease-Outcome}

empty-IsExclusive : IsExclusive empty_store
empty-IsExclusive = record { unique_ids = tt; one_open = λ scope. omega arith }

acquire_lease-Outcome_example :
    Outcome
      (is_held empty_store host 1 none false)
      empty_store
      host
      3
      2
      100
      (new_lease (acquisition host 1 2 none false) 100 3)
      (acquire_lease empty_store host 1 2 none false 3)
acquire_lease-Outcome_example =
    acquire_lease-Outcome empty_store host 1 2 none false 3 empty-IsExclusive refl refl refl

-- The lease of the controller 1 on the connection 2, until 45100.
abbrev held : Lease
held = new_lease (acquisition host 1 2 none false) 100 3

abbrev held_store : Store
held_store = record empty_store { leases = held ∷ [] }
