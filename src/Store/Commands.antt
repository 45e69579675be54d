-- ===== src/Store/Commands.antt =====
-- packages/bridge/src/core/store.ts: the rows of the durable commands.
pub mod Lifecycle
pub mod Accepting
pub mod Recovery
pub mod Marking
pub mod Candidates
pub mod Tests
use pi_mob.Prelude.{
  ℕ, ◌+◌, Bool, true, false, not, ◌||◌, Option, none, some, List, [], ◌∷◌, ◌++◌, ◌==◌,
  if◌then◌else◌, first, keep, has, update, sort_by, Result, ok, err,
}
use pi_mob.Tables.{
  StreamId, stream_eq, StoredEvent, StoredCommand, CommandState, accepted, dispatched, running,
  indeterminate, command_state_eq, Content, command_state, controller_state, Lease,
}
use pi_mob.Store.{
  Store, Tx, transaction, StoreErrorCode, broken_constraint, Fault, ◌>>=◌, ◌>>◌, return,
}
use pi_mob.Store.Journal.{find_stream, append_event_tx}
use pi_mob.Store.Leases.{LeaseMutation, LeaseAction, release, apply_lease_mutation_tx}

abbrev pub command : ℕ → List StoredCommand → Option StoredCommand
command id = first (λ c. c.command_id == id)

pub record CommandInput : Type 0 where
  pub command_id : ℕ
  pub type : ℕ
  pub scope_key : StreamId
  pub stream_id : StreamId
  pub semantic_hash : ℕ
  pub payload : ℕ
  pub lease_mutation : Option LeaseMutation

-- The ids that `uuid()` returns for one call: those of the lease and of the two events.
pub record Uuids : Type 0 where
  pub for_lease : ℕ
  pub for_state : ℕ
  pub for_controller : ℕ

pub data AcceptCommandResult : Type 0 where
  accepted_command : StoredCommand → StoredEvent → AcceptCommandResult
  duplicate_command : StoredCommand → AcceptCommandResult
  conflict_command : AcceptCommandResult

mutate_lease_tx : Option LeaseMutation → ℕ → Tx (Option Lease)
mutate_lease_tx none id s = ok (s, none)
mutate_lease_tx (some m) id s = apply_lease_mutation_tx m id s

abbrev has_stream : StreamId → Store → Bool
has_stream id s = has (λ r. stream_eq r.stream_id id) s.streams

-- `INSERT INTO commands`: the key, and a stream that exists.
insert_command_tx : StoredCommand → Tx (Unit {0})
insert_command_tx c s =
    if has (λ o. o.command_id == c.command_id) s.commands
    then err broken_constraint
    else if has_stream c.stream_id s
    then ok (record s { commands = s.commands ++ (c ∷ []) }, tt)
    else err broken_constraint

abbrev lease_facts : Option Lease → Option (ℕ × ℕ × ℕ)
lease_facts none = none
lease_facts (some l) = some (l.lease_id, l.installation_id, l.expires_at)

controller_event_tx : CommandInput → Option LeaseMutation → Option Lease → ℕ → Tx (Unit {0})
controller_event_tx c none l id s = ok (s, tt)
controller_event_tx c (some m) l id s =
    elim (append_event_tx c.stream_id (controller_state c.scope_key (lease_facts l)) id s) [
      | err f ↦ err f
      | ok (t, e) ↦ ok (t, tt)
    ]

abbrev pub new_command : CommandInput → ℕ → StoredCommand
new_command c now = record {
  command_id = c.command_id;
  type = c.type;
  scope_key = c.scope_key;
  stream_id = c.stream_id;
  semantic_hash = c.semantic_hash;
  payload = c.payload;
  state = accepted;
  dispatch_count = 0;
  created_at = now;
}

insert_new_tx : CommandInput → Tx (Unit {0})
insert_new_tx c s = insert_command_tx (new_command c s.now) s

accept_new_tx : CommandInput → Uuids → Tx AcceptCommandResult
accept_new_tx c ids = do
  l ← mutate_lease_tx c.lease_mutation ids.for_lease
  insert_new_tx c
  e ← append_event_tx c.stream_id (command_state c.command_id c.type accepted) ids.for_state
  controller_event_tx c c.lease_mutation l ids.for_controller
  λ s. ok (s, accepted_command (new_command c s.now) e)

accept_found : CommandInput → Uuids → Option StoredCommand → Tx AcceptCommandResult
accept_found c ids none s = accept_new_tx c ids s
accept_found c ids (some o) s =
    ok (s, (if o.semantic_hash == c.semantic_hash then duplicate_command o else conflict_command))

-- `acceptCommand`; the command of an acceptance is the row just inserted.
pub accept_command :
    Store → CommandInput → Uuids → Store × Result StoreErrorCode AcceptCommandResult
accept_command s c ids = transaction (λ t. accept_found c ids (command c.command_id t.commands) t) s

abbrev dispatches : CommandState → ℕ
dispatches dispatched = 1
dispatches _ = 0

abbrev pub moved_to : CommandState → StoredCommand → StoredCommand
moved_to to c = record c { state = to; dispatch_count = c.dispatch_count + dispatches to }

abbrev pub includes : List CommandState → CommandState → Bool
includes states state = has (command_state_eq state) states

transition_found :
    ℕ → List CommandState → CommandState → ℕ → Option StoredCommand → Tx (Option StoredCommand)
transition_found id from to event_id none s = ok (s, none)
transition_found id from to event_id (some c) s =
    if not (includes from c.state)
    then ok (s, none)
    else let s' = record s {
      commands = update (λ o. o.command_id == id) (moved_to to) s.commands;
    } in
      elim (append_event_tx c.stream_id (command_state id c.type to) event_id s') [
        | err f ↦ err f
        | ok (t, e) ↦ ok (t, command id t.commands)
      ]

-- `transitionCommand`, without the event that it returns too.
pub transition_command :
    Store
    → ℕ
    → List CommandState
    → CommandState
    → ℕ
    → Store × Result StoreErrorCode (Option StoredCommand)
transition_command s id from to event_id =
    transaction (λ t. transition_found id from to event_id (command id t.commands) t) s

-- `recoveryCandidates`.
pub recovery_candidates : Store → List StoredCommand
recovery_candidates s =
    sort_by (λ c. c.created_at)
      (keep (λ c. includes (accepted ∷ dispatched ∷ running ∷ []) c.state) s.commands)

abbrev counted : Option StoredCommand → ℕ → ℕ
counted none n = n
counted (some c) n = n + 1

abbrev mark_next :
    (ℕ → Store → Store × Result StoreErrorCode ℕ)
    → ℕ
    → Store × Result StoreErrorCode (Option StoredCommand)
    → Store × Result StoreErrorCode ℕ
mark_next rest n (s, err code) = (s, err code)
mark_next rest n (s, ok o) = rest (counted o n) s

module _ (uuid : Store → ℕ) where
  -- The loop of `markUncertainIndeterminate`, which counts the commands that it changes; a throw
  -- ends it.
  pub mark_all : List StoredCommand → ℕ → Store → Store × Result StoreErrorCode ℕ
  mark_all [] n s = (s, ok n)
  mark_all (c ∷ cs) n s =
      mark_next (mark_all cs) n
        (transition_command s c.command_id (c.state ∷ []) indeterminate (uuid s))

  pub mark_uncertain_indeterminate : Store → Store × Result StoreErrorCode ℕ
  mark_uncertain_indeterminate s =
      mark_all (keep (λ c. includes (dispatched ∷ running ∷ []) c.state) (recovery_candidates s)) 0
        s
