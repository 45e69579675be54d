-- ===== src/Dispatch/Recovering.antt =====
-- packages/bridge/src/core/domain.ts: what `recover` makes of the commands of the run before.
use pi_mob.Prelude.{
  ℕ, ◌≡◌, refl, Bool, false, ◌&&◌, List, [], ◌∷◌, ◌++◌, arith, map, keep, update, sort_by, Result,
  ok, err, IsUnique, append-nil, append_assoc, ap, ◌∙◌, sym,
}
use pi_mob.Tables.{
  StoredCommand, CommandState, accepted, dispatched, running, completed, failed, indeterminate,
  command_state_eq,
}
use pi_mob.Store.{Store, StoreErrorCode}
use pi_mob.Store.Commands.{includes, moved_to, recovery_candidates, mark_uncertain_indeterminate}
use pi_mob.Store.Commands.Marking.{is_uncertain, RowsAre}
use pi_mob.Store.Commands.Candidates.{candidates-keep, mark_uncertain-exact}
use pi_mob.Dispatch.{Service, Task, enqueue_all, recover_marked, recover}

abbrev is_waiting : StoredCommand → Bool
is_waiting c = command_state_eq c.state accepted

abbrev pub task_of : StoredCommand → Task
task_of c = record { lane = c.scope_key; command_id = c.command_id; started = false }

-- What `recover` promises, by the answer of the marking.
abbrev pub Recovered : Service → Result StoreErrorCode ℕ → Service → Type 0
Recovered v (err code) w = (w.tasks ≡ v.tasks) × (w.calls ≡ v.calls)
Recovered v (ok n) w =
    (w.store.commands
      ≡ update (λ c. includes (dispatched ∷ running ∷ []) c.state) (moved_to indeterminate)
          v.store.commands)
    × (w.tasks
        ≡ v.tasks
          ++ map task_of (
              sort_by (λ c. c.created_at)
                (keep (λ c. command_state_eq c.state accepted) v.store.commands)))
    × (w.calls ≡ v.calls)

waiting_only :
    (a : CommandState)
    → (includes (accepted ∷ dispatched ∷ running ∷ []) a && command_state_eq a accepted)
      ≡ command_state_eq a accepted
waiting_only accepted = refl
waiting_only dispatched = refl
waiting_only running = refl
waiting_only completed = refl
waiting_only failed = refl
waiting_only indeterminate = refl

keep_waiting :
    (rows : List StoredCommand)
    → keep is_waiting (update is_uncertain (moved_to indeterminate) rows) ≡ keep is_waiting rows
keep_waiting [] = refl
keep_waiting (c ∷ rows) = ground (arith, keep_waiting rows)

module _ (uuid : Store → ℕ) where
  enqueue_all-map :
      (cs : List StoredCommand) (ts : List Task) → enqueue_all uuid cs ts ≡ ts ++ map task_of cs
  enqueue_all-map [] ts = sym (append-nil ts)
  enqueue_all-map (c ∷ cs) ts =
      enqueue_all-map cs (ts ++ (task_of c ∷ []))
      ∙ append_assoc ts (task_of c ∷ []) (map task_of cs)

  recover_marked-Recovered :
      (v : Service) (o : Store × Result StoreErrorCode ℕ)
      → RowsAre (update is_uncertain (moved_to indeterminate) v.store.commands) o
      → Recovered v o.1 (recover_marked uuid v o)
  unfolding recover_marked
  recover_marked-Recovered v (s, err code) h = (refl, refl)
  recover_marked-Recovered v (s, ok n) h = (
    h,
    enqueue_all-map (keep is_waiting (recovery_candidates s)) v.tasks
        ∙ ap (λ cs. v.tasks ++ map task_of cs)
            (candidates-keep is_waiting s (λ c. waiting_only c.state)
              ∙ ap (sort_by (λ c. c.created_at))
                  (ap (keep is_waiting) h ∙ keep_waiting v.store.commands)),
    refl,
  )

  -- Where the ids of the commands are unique and no transition of the marking throws: `recover` moves
  -- each command that was dispatched or running to `indeterminate`, moves no other, puts a task for
  -- each accepted command, the oldest first, behind those that there are, and does not call the
  -- adapter itself. Where one throws, it makes no task and calls nothing.
  pub recover-Recovered :
      (v : Service)
      → IsUnique (λ c. c.command_id) v.store.commands
      → Recovered v (mark_uncertain_indeterminate uuid v.store).1 (recover uuid v)
  unfolding recover
  recover-Recovered v u =
      recover_marked-Recovered v (mark_uncertain_indeterminate uuid v.store)
        (mark_uncertain-exact uuid v.store u)
