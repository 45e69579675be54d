-- ===== src/Dispatch/Tests.antt =====
-- packages/bridge/src/core/domain.ts: the theorems on the commands' service, as one command is
-- submitted and begun, and as a service recovers after a restart.
use pi_mob.Prelude.{ℕ, [], ◌∷◌, arith}
use pi_mob.Tables.{host, StoredCommand, CommandState, accepted, running}
use pi_mob.Store.{Store}
use pi_mob.Store.Samples.{host_store}
use pi_mob.Store.Commands.{mark_uncertain_indeterminate}
use pi_mob.Store.Commands.Tests.{prompt, uuids}
use pi_mob.Dispatch.{Service, submit, begin, recover}
use pi_mob.Dispatch.Recovering.{Recovered, recover-Recovered}
use pi_mob.Dispatch.AtMostOnce.{
  IsSoundService, submits, begins, stop, step, ServiceSteps, ServiceSteps-IsSound,
}

abbrev uuid : Store → ℕ
uuid s = 30

abbrev idle : Service
idle = record { store = host_store; tasks = []; calls = [] }

abbrev begun : Service
begun = begin uuid (submit idle prompt uuids).0 host

begun-steps : ServiceSteps uuid idle begun
begun-steps = step idle (submit idle prompt uuids).0 begun (submits idle prompt uuids) (
    step (submit idle prompt uuids).0 begun begun (begins (submit idle prompt uuids).0 host)
      (stop begun))

ServiceSteps-IsSound_example : IsSoundService begun
ServiceSteps-IsSound_example =
    ServiceSteps-IsSound uuid idle begun begun-steps
      (record { unique = tt; once = tt; called = tt; distinct = tt })

abbrev left_over : (id created_at : ℕ) → CommandState → ℕ → StoredCommand
left_over id created_at state dispatch_count = record {
  command_id = id;
  type = 9;
  scope_key = host;
  stream_id = host;
  semantic_hash = 4;
  payload = 6;
  state = state;
  dispatch_count = dispatch_count;
  created_at = created_at;
}

-- After a restart: one command was running, and two were accepted, the later row being the older.
abbrev restarted : Service
restarted = record {
  store = record host_store {
    commands =
        left_over 1 80 running 1 ∷ (left_over 2 85 accepted 0 ∷ (left_over 3 82 accepted 0 ∷ []));
  };
  tasks = [];
  calls = 1 ∷ [];
}

recover-Recovered_example :
    Recovered restarted
      (mark_uncertain_indeterminate uuid restarted.store).1
      (recover uuid restarted)
recover-Recovered_example = recover-Recovered uuid restarted (
  (λ e. absurd (omega (arith, e)), (λ e. absurd (omega (arith, e)), tt)),
  ((λ e. absurd (omega (arith, e)), tt), (tt, tt)),
)
