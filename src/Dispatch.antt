-- ===== src/Dispatch.antt =====
-- packages/bridge/src/core/domain.ts: DurableCommandService with its CommandLanes. A task of a lane
-- runs in two parts, before and after it awaits the adapter, between which other tasks run. The
-- chain of promises of a lane is modelled as a queue whose head alone runs, so that the model takes
-- the lane's order from the chain and does not derive it.
pub mod AtMostOnce
pub mod Recovering
mod Tests
use pi_mob.Prelude.{
  ℕ, Bool, true, false, ◌||◌, Option, none, some, List, [], ◌∷◌, ◌++◌, ◌==◌, if◌then◌else◌, first,
  has, keep, Result, ok, err,
}
use pi_mob.Tables.{
  StreamId, stream_eq, StoredCommand, CommandState, accepted, dispatched, running, completed,
  failed, indeterminate, command_state_eq,
}
use pi_mob.Store.{Store, StoreErrorCode, conflict}
use pi_mob.Store.Commands.{
  CommandInput, Uuids, AcceptCommandResult, accepted_command, duplicate_command, conflict_command,
  accept_command, transition_command, recovery_candidates, mark_uncertain_indeterminate,
}

-- A task that is not finished; `started` where it awaits the adapter.
pub record Task : Type 0 where
  pub lane : StreamId
  pub command_id : ℕ
  pub started : Bool

pub record Service : Type 0 where
  pub store : Store
  -- `tails`: the tasks in the order in which they were enqueued, of all lanes.
  pub tasks : List Task
  -- The commands that the adapter was called with.
  pub calls : List ℕ

-- BRIDGE_LOCAL_COMMANDS: `controller.acquire`, `controller.takeover` and `controller.release`.
abbrev pub bridge_local_commands : List ℕ
bridge_local_commands = 0 ∷ 1 ∷ 2 ∷ []

abbrev pub is_local : ℕ → Bool
is_local type = has (λ t. t == type) bridge_local_commands

pub record Receipt : Type 0 where
  pub command_id : ℕ
  pub state : CommandState
  pub duplicate : Bool

abbrev pub enqueue : StoredCommand → List Task → List Task
enqueue c ts =
    ts ++ (record { lane = c.scope_key; command_id = c.command_id; started = false } ∷ [])

submitted :
    Service
    → ℕ
    → Store × Result StoreErrorCode AcceptCommandResult
    → Service × Result StoreErrorCode Receipt
submitted v id (s, err code) = (record v { store = s }, err code)
submitted v id (s, ok conflict_command) = (record v { store = s }, err conflict)
submitted v id (s, ok (duplicate_command c)) =
    (record v { store = s }, ok (record { command_id = id; state = c.state; duplicate = true }))
submitted v id (s, ok (accepted_command c e)) = (
  record v { store = s; tasks = enqueue c v.tasks },
  ok (record { command_id = id; state = accepted; duplicate = false }),
)

-- `submit`.
pub submit : Service → CommandInput → Uuids → Service × Result StoreErrorCode Receipt
submit v c ids = submitted v c.command_id (accept_command v.store c ids)

abbrev pub head_of : StreamId → List Task → Option Task
head_of lane = first (λ t. stream_eq t.lane lane)

-- The task at the head of a lane is done: the next of the lane may run.
abbrev pub finish_head : StreamId → List Task → List Task
finish_head lane [] = []
finish_head lane (t ∷ ts) = if stream_eq t.lane lane then ts else t ∷ finish_head lane ts

abbrev pub start_head : StreamId → List Task → List Task
start_head lane [] = []
start_head lane (t ∷ ts) =
    if stream_eq t.lane lane then record t { started = true } ∷ ts else t ∷ start_head lane ts

pub data Dispatched : Type 0 where
  returned threw threw_indeterminate : Dispatched

abbrev ending : Dispatched → CommandState
ending threw_indeterminate = indeterminate
ending _ = failed

module _ (uuid : Store → ℕ) where
  -- The `catch`; what its transition throws rejects the completion, which the lane swallows.
  catch_error : Store → ℕ → CommandState → Store
  catch_error s id to = (transition_command s id (dispatched ∷ running ∷ []) to (uuid s)).0

  complete_result : ℕ → Store × Result StoreErrorCode (Option StoredCommand) → Store
  complete_result id (s, err code) = catch_error s id failed
  complete_result id (s, ok o) = s

  complete : Store → ℕ → Store
  complete s id = complete_result id (transition_command s id (running ∷ []) completed (uuid s))

  run_result :
      Service
      → Task
      → StoredCommand
      → Store × Result StoreErrorCode (Option StoredCommand)
      → Service
  run_result v t c (s, err code) = record v {
    store = catch_error s t.command_id failed;
    tasks = finish_head t.lane v.tasks;
  }
  run_result v t c (s, ok o) =
      if is_local c.type
      then record v { store = complete s t.command_id; tasks = finish_head t.lane v.tasks }
      else record v { store = s; tasks = start_head t.lane v.tasks; calls = t.command_id ∷ v.calls }

  claim_result : Service → Task → Store × Result StoreErrorCode (Option StoredCommand) → Service
  claim_result v t (s, err code) = record v { store = s; tasks = finish_head t.lane v.tasks }
  claim_result v t (s, ok none) = record v { store = s; tasks = finish_head t.lane v.tasks }
  claim_result v t (s, ok (some c)) =
      run_result v t c (transition_command s t.command_id (dispatched ∷ []) running (uuid s))

  begin_head : Service → Option Task → Service
  begin_head v none = v
  begin_head v (some t) =
      if t.started
      then v
      else claim_result v t
          (transition_command v.store t.command_id (accepted ∷ []) dispatched (uuid v.store))

  -- The task at the head of a lane up to its await of the adapter, or to its end.
  pub begin : Service → StreamId → Service
  begin v lane = begin_head v (head_of lane v.tasks)

  settled_store : Store → ℕ → Dispatched → Store
  settled_store s id returned = complete s id
  settled_store s id d = catch_error s id (ending d)

  settle_head : Service → Dispatched → Option Task → Service
  settle_head v d none = v
  settle_head v d (some t) =
      if t.started
      then record v {
        store = settled_store v.store t.command_id d;
        tasks = finish_head t.lane v.tasks;
      }
      else v

  -- The task at the head of a lane from the adapter's answer on.
  pub settle : Service → StreamId → Dispatched → Service
  settle v lane d = settle_head v d (head_of lane v.tasks)

  abbrev enqueue_all : List StoredCommand → List Task → List Task
  enqueue_all [] ts = ts
  enqueue_all (c ∷ cs) ts = enqueue_all cs (enqueue c ts)

  recover_marked : Service → Store × Result StoreErrorCode ℕ → Service
  recover_marked v (s, err code) = record v { store = s }
  recover_marked v (s, ok n) = record v {
    store = s;
    tasks =
        enqueue_all (keep (λ c. command_state_eq c.state accepted) (recovery_candidates s)) v.tasks;
  }

  -- `recover`, up to the dispatches that it awaits.
  pub recover : Service → Service
  recover v = recover_marked v (mark_uncertain_indeterminate uuid v.store)
