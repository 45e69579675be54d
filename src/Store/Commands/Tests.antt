-- ===== src/Store/Commands/Tests.antt =====
-- packages/bridge/src/core/store.ts: the theorems on the commands, from a store that has none.
use pi_mob.Prelude.{none, [], ◌∷◌}
use pi_mob.Tables.{host, accepted, dispatched}
use pi_mob.Store.Samples.{host_store}
use pi_mob.Store.Commands.{CommandInput, Uuids, command, accept_command, transition_command}
use pi_mob.Store.Commands.Accepting.{AcceptEffect, accept_command-Effect}
use pi_mob.Store.Commands.Lifecycle.{Effect, transition_command-Effect}

abbrev pub prompt : CommandInput
prompt = record {
  command_id = 1;
  type = 9;
  scope_key = host;
  stream_id = host;
  semantic_hash = 4;
  payload = 6;
  lease_mutation = none;
}

abbrev pub uuids : Uuids
uuids = record { for_lease = 20; for_state = 21; for_controller = 22 }

accept_command-Effect_example :
    AcceptEffect host_store prompt
      (command 1 host_store.commands)
      (accept_command host_store prompt uuids)
accept_command-Effect_example = accept_command-Effect host_store prompt uuids

transition_command-Effect_example :
    Effect (accept_command host_store prompt uuids).0.commands 1 (accepted ∷ []) dispatched (
      transition_command (accept_command host_store prompt uuids).0 1 (accepted ∷ []) dispatched 23)
transition_command-Effect_example =
    transition_command-Effect (accept_command host_store prompt uuids).0 1 (accepted ∷ [])
      dispatched 23
