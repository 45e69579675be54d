-- ===== src/Store/Queue/Tests.antt =====
-- packages/bridge/src/core/store.ts: the queue of session 5, run.
use pi_mob.Prelude.{ℕ, zero, suc, ◌+◌, ◌≡◌, refl, true, some, List, [], ◌∷◌, err, length, map}
use pi_mob.Tables.{session, QueueItem, queued, dispatching}
use pi_mob.Store.{Store, full, transaction}
use pi_mob.Store.Samples.{empty_store, host_stream}
use pi_mob.Store.Journal.{append_event_tx, append_found, insert_event}
use pi_mob.Store.Queue.{
  EventIds, FollowUp, enqueue_follow_up, enqueue_follow_up_tx, insert_item, emit_queued_tx,
  emit_snapshot_tx, claim_next_follow_up, claim_head, finish_follow_up, finish_found,
  list_follow_ups,
}
use pi_mob.Store.Queue.Fifo.{Call, enqueue, claim, complete, calls, IsFifo, calls-IsFifo}

abbrev queue_store : Store
queue_store = record empty_store {
  sessions = 5 ∷ [];
  streams =
      host_stream
      ∷ record { stream_id = session 5; session_id = some 5; current = 0; floor = 0 }
      ∷ [];
}

abbrev event_ids : ℕ → EventIds
event_ids n = record { change_id = n; snapshot_id = n + 1; summary_id = n + 2 }

abbrev follow_up : ℕ → FollowUp
follow_up n = record { session_id = 5; message = n; attachment_ids = []; queue_item_id = n }

abbrev two_sent : List Call
two_sent =
    enqueue (follow_up 70) (event_ids 1)
    ∷ enqueue (follow_up 60) (event_ids 11)
    ∷ claim 5 (event_ids 21)
    ∷ complete 70 (event_ids 31)
    ∷ enqueue (follow_up 50) (event_ids 41)
    ∷ claim 5 (event_ids 51)
    ∷ []

calls-IsFifo_example : IsFifo 5 queue_store (calls queue_store two_sent)
calls-IsFifo_example = calls-IsFifo queue_store two_sent 5 tt

two_are_sent : map (λ i. i.message) (calls queue_store two_sent).claimed ≡ 70 ∷ 60 ∷ []
unfolding enqueue_follow_up enqueue_follow_up_tx insert_item emit_queued_tx emit_snapshot_tx
    claim_next_follow_up claim_head finish_follow_up finish_found append_event_tx append_found
    insert_event transaction
two_are_sent = refl

abbrev items_from : ℕ → ℕ → List QueueItem
items_from zero n = []
items_from (suc k) n =
    record {
      queue_item_id = n;
      session_id = 5;
      message = n;
      attachment_ids = [];
      position = n;
      state = queued;
      created_at = 100;
    }
    ∷ items_from k (n + 1)

-- Ten messages wait, and one is under way.
abbrev busy_store : Store
busy_store = record queue_store {
  queue =
      record {
        queue_item_id = 1;
        session_id = 5;
        message = 1;
        attachment_ids = [];
        position = 1;
        state = dispatching;
        created_at = 100;
      }
      ∷ items_from 10 2;
}

an_eleventh_is_refused : (enqueue_follow_up busy_store (follow_up 90) (event_ids 1)).1 ≡ err full
unfolding enqueue_follow_up enqueue_follow_up_tx insert_item transaction
an_eleventh_is_refused = refl

-- The message that is put back is an eleventh one.
eleven_wait :
    length (list_follow_ups 5 (finish_follow_up busy_store 1 true (event_ids 1)).0.queue) ≡ 11
unfolding finish_follow_up finish_found emit_snapshot_tx append_event_tx append_found insert_event
    transaction
eleven_wait = refl
