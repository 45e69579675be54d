-- ===== src/Store/Queue.antt =====
-- packages/bridge/src/core/store.ts: the queue of follow-up messages of a session, from which a turn
-- that ends takes the next one. The column `updated_at`, which nothing reads, has no model.
pub mod Waiting
pub mod Effects
pub mod Fifo
mod Tests
use pi_mob.Prelude.{
  ℕ, suc, ◌+◌, max, Bool, true, false, ◌&&◌, ◌||◌, not, Option, none, some, List, [], ◌∷◌, ◌++◌,
  leb, ◌==◌, if◌then◌else◌, first, keep, has, update, sort_by, Result, ok, err, length,
}
use pi_mob.Tables.{
  host, session, QueueItem, ItemState, queued, dispatching, QueueEntry, QueueChange, removed_item,
  dispatched_item, recovered_item, completed_item, cleared_items, unnamed_change, turn_queued,
  queue_snapshot, session_summary,
}
use pi_mob.Store.{
  Store, Tx, transaction, StoreErrorCode, full, not_found, require, constraint, return, throw,
  ◌>>=◌, ◌>>◌,
}
use pi_mob.Store.Journal.{append_event_tx}

abbrev pub is_queued : ItemState → Bool
is_queued queued = true
is_queued dispatching = false

-- `session_id=? AND state='queued'`.
abbrev pub waits_in : ℕ → QueueItem → Bool
waits_in sid item = (item.session_id == sid) && is_queued item.state

-- `queue_item_id=? AND state='queued'`.
abbrev pub waits_as : ℕ → QueueItem → Bool
waits_as id item = (item.queue_item_id == id) && is_queued item.state

abbrev pub is_dispatched_as : ℕ → QueueItem → Bool
is_dispatched_as id item = (item.queue_item_id == id) && not (is_queued item.state)

-- `listFollowUps`.
abbrev pub list_follow_ups : ℕ → List QueueItem → List QueueItem
list_follow_ups sid rows = sort_by (λ item. item.position) (keep (waits_in sid) rows)

-- The ids that `uuid()` returns for the events of an operation, in their order.
pub record EventIds : Type 0 where
  pub change_id : ℕ
  pub snapshot_id : ℕ
  pub summary_id : ℕ

abbrev payload_items : ℕ → List QueueItem → List QueueEntry
payload_items index [] = []
payload_items index (item ∷ items) =
    (item.queue_item_id, index + 1, item.message, item.attachment_ids, item.created_at)
    ∷ payload_items (index + 1) items

abbrev summarise : ℕ → ℕ → ℕ → Tx (Unit {0})
summarise sid count id = append_event_tx host (session_summary sid count) id >>= λ e. return tt

-- `emitQueueStateTx` of the type `queue.snapshot`.
pub emit_snapshot_tx : ℕ → QueueChange → EventIds → Tx (Unit {0})
emit_snapshot_tx sid change ids s =
    let items = list_follow_ups sid s.queue in
    (append_event_tx (session sid)
          (queue_snapshot sid change (payload_items 0 items) (length items)) ids.change_id
        >> summarise sid (length items) ids.summary_id)
      s

-- `emitQueueStateTx` of the type `turn.queued`.
pub emit_queued_tx : ℕ → ℕ → ℕ → EventIds → Tx (Unit {0})
emit_queued_tx sid id position ids s =
    let items = list_follow_ups sid s.queue in
    (append_event_tx (session sid)
          (turn_queued sid id position (payload_items 0 items) (length items)) ids.change_id
        >> append_event_tx (session sid)
            (queue_snapshot sid unnamed_change (payload_items 0 items) (length items))
            ids.snapshot_id
        >> summarise sid (length items) ids.summary_id)
      s

-- `coalesce(max(position),0)` over the rows of a session, in either state.
abbrev pub last_position : ℕ → List QueueItem → ℕ
last_position sid [] = 0
last_position sid (item ∷ items) =
    let rest = last_position sid items in
    if item.session_id == sid then max item.position rest else rest

pub record FollowUp : Type 0 where
  pub session_id : ℕ
  pub message : ℕ
  pub attachment_ids : List ℕ
  -- The id of the caller, or of `uuid()`.
  pub queue_item_id : ℕ

abbrev pub new_item : FollowUp → Store → QueueItem
new_item input s = record {
  queue_item_id = input.queue_item_id;
  session_id = input.session_id;
  message = input.message;
  attachment_ids = input.attachment_ids;
  position = last_position input.session_id s.queue + 1;
  state = queued;
  created_at = s.now;
}

abbrev max_queued_follow_ups : ℕ
max_queued_follow_ups = 10

abbrev pub waiting_count : ℕ → Store → ℕ
waiting_count sid s = length (keep (waits_in sid) s.queue)

-- `INSERT INTO follow_up_queue`: the key, a position of a session, and the reference to the session.
insert_item : QueueItem → Tx (Unit {0})
insert_item item s =
    (constraint (
          not (
            has
              (λ o.
                (o.queue_item_id == item.queue_item_id)
                || ((o.session_id == item.session_id) && (o.position == item.position)))
              s.queue)
          && has (λ n. n == item.session_id) s.sessions)
        >> λ t. ok (record t { queue = t.queue ++ (item ∷ []) }, tt))
      s

enqueue_follow_up_tx : FollowUp → EventIds → Tx QueueItem
enqueue_follow_up_tx input ids s =
    let item = new_item input s in
    (require (not (leb max_queued_follow_ups (waiting_count input.session_id s))) full
        >> insert_item item
        >> emit_queued_tx input.session_id item.queue_item_id item.position ids
        >> return item)
      s

-- `enqueueFollowUp`.
pub enqueue_follow_up : Store → FollowUp → EventIds → Store × Result StoreErrorCode QueueItem
enqueue_follow_up s input ids = transaction (enqueue_follow_up_tx input ids) s

abbrev pub delete_items : (QueueItem → Bool) → Tx (Unit {0})
delete_items test s = ok (record s { queue = keep (λ item. not (test item)) s.queue }, tt)

remove_found : ℕ → EventIds → Option QueueItem → Tx QueueItem
remove_found sid ids none = throw not_found
remove_found sid ids (some item) =
    delete_items (waits_as item.queue_item_id)
    >> emit_snapshot_tx sid (removed_item item.queue_item_id) ids
    >> return item

-- `removeFollowUp`.
pub remove_follow_up : Store → ℕ → ℕ → EventIds → Store × Result StoreErrorCode QueueItem
remove_follow_up s sid id ids =
    transaction
      (λ t.
        remove_found sid ids (first (λ v. v.queue_item_id == id) (list_follow_ups sid t.queue)) t)
      s

clear_follow_ups_tx : ℕ → EventIds → Tx (List QueueItem)
clear_follow_ups_tx sid ids s =
    (delete_items (waits_in sid)
        >> emit_snapshot_tx sid cleared_items ids
        >> return (list_follow_ups sid s.queue))
      s

-- `clearFollowUps`.
pub clear_follow_ups : Store → ℕ → EventIds → Store × Result StoreErrorCode (List QueueItem)
clear_follow_ups s sid ids = transaction (clear_follow_ups_tx sid ids) s

abbrev pub in_state : ItemState → QueueItem → QueueItem
in_state state item = record item { state = state }

-- The rows with the state set where the test holds, and the count of those.
abbrev pub set_state : (QueueItem → Bool) → ItemState → Tx ℕ
set_state test state s =
    ok (record s { queue = update test (in_state state) s.queue }, length (keep test s.queue))

claim_head : ℕ → EventIds → List QueueItem → Tx (Option QueueItem)
claim_head sid ids [] = return none
claim_head sid ids (item ∷ items) =
    set_state (waits_as item.queue_item_id) dispatching >>= λ changes.
    if changes == 1
    then emit_snapshot_tx sid (dispatched_item item.queue_item_id) ids
      >> return (some (in_state dispatching item))
    else return none

-- `claimNextFollowUp`.
pub claim_next_follow_up : Store → ℕ → EventIds → Store × Result StoreErrorCode (Option QueueItem)
claim_next_follow_up s sid ids =
    transaction (λ t. claim_head sid ids (list_follow_ups sid t.queue) t) s

finish_found : ℕ → Bool → EventIds → Option QueueItem → Tx (Unit {0})
finish_found id requeue ids none = return tt
finish_found id true ids (some row) =
    set_state (λ item. item.queue_item_id == id) queued
    >> emit_snapshot_tx row.session_id (recovered_item id) ids
finish_found id false ids (some row) =
    delete_items (λ item. item.queue_item_id == id)
    >> emit_snapshot_tx row.session_id (completed_item id) ids

-- `finishFollowUp`.
pub finish_follow_up : Store → ℕ → Bool → EventIds → Store × Result StoreErrorCode (Unit {0})
finish_follow_up s id requeue ids =
    transaction (λ t. finish_found id requeue ids (first (is_dispatched_as id) t.queue) t) s

-- `recoverDispatchingFollowUps`.
pub recover_dispatching_follow_ups : Store → Store × Result StoreErrorCode ℕ
recover_dispatching_follow_ups = transaction (set_state (λ item. not (is_queued item.state)) queued)
