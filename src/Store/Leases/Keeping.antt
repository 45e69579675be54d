-- ===== src/Store/Leases/Keeping.antt =====
-- packages/bridge/src/core/store.ts: who can end the lease of a controller.
use pi_mob.Prelude.{◌≡◌, some, []}
use pi_mob.Tables.{StreamId, Lease}
use pi_mob.Store.{Store}
use pi_mob.Store.Leases.{lease}
use pi_mob.Store.Leases.Exclusive.{IsExclusive}

module _ (scope : StreamId) (l : Lease) (s : Store) (c : IsExclusive s)
    (held : lease scope s.leases ≡ some l) where
  abbrev opened : Store
  opened = record s { collecting = [] }
