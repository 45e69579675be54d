-- ===== src/Sync/Tests.antt =====
-- packages/bridge/src/core/domain.ts: the theorems on `sync`, on a stream at cursor 2.
use pi_mob.Prelude.{◌≡◌, refl, some, [], ◌∷◌, arith, All, ◌==◌, if◌then◌else◌}
use mathlib.Core.List.{flatten}
use pi_mob.Tables.{host}
use pi_mob.Store.Samples.{host_store, host_stream, host_event}
use pi_mob.Store.Journal.Tests.{host_store-IsConsistent}
use pi_mob.Cursor.Tests.{one-is_canonical, value-one}
use pi_mob.Sync.{sync, Tracker, apply, applied, seen_at, snapshot_parts}
use pi_mob.Sync.Continuity.{Applies, unapplied, sync-Applies, apply_exact}
use pi_mob.Sync.Parts.{IsFit, snapshot_parts_exact}

abbrev behind : Tracker
behind = record { cursor = 1; applied = (1, 3) ∷ [] }

sync-Applies_example :
    Applies
      (λ e. e)
      (λ s. [])
      (λ e. refl)
      host_store
      host
      host_stream
      host_store-IsConsistent
      refl
      refl
      refl
      behind
      (sync (λ e. e) (λ s. []) host_store host (some (b'1' ∷ [])))
sync-Applies_example =
    sync-Applies (λ e. e) (λ s. []) (λ e. refl) host_store host host_stream host_store-IsConsistent
      refl refl refl behind (some (b'1' ∷ [])) (omega arith, tt) (one-is_canonical, value-one)

apply_exact_example : apply behind host_event ≡ (
    if 2 == 2
    then (record { cursor = 2; applied = (2, 7) ∷ ((1, 3) ∷ []) }, applied)
    else (behind, unapplied 7 (seen_at 2 ((1, 3) ∷ []))))
apply_exact_example = apply_exact behind host_event (omega arith, tt)

snapshot_parts_exact_example :
    (flatten (snapshot_parts (λ c. 1) 2 (1 ∷ 2 ∷ 3 ∷ [])) ≡ (1 ∷ 2 ∷ 3 ∷ []))
    × All (IsFit (λ c. 1) 2) (snapshot_parts (λ c. 1) 2 (1 ∷ 2 ∷ 3 ∷ []))
snapshot_parts_exact_example =
    snapshot_parts_exact (λ c. 1) 2 (1 ∷ 2 ∷ 3 ∷ []) (λ e. cc) (omega arith)
