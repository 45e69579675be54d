-- ===== src/Store/Queue/Effects.antt =====
-- packages/bridge/src/core/store.ts: the rows of the queue behind each operation, the events it
-- appends counted in.
use pi_mob.Prelude.{
  ℕ, ◌≡◌, refl, sym, ◌∙◌, ap, subst, Bool, true, false, not, ◌&&◌, ◌||◌, Option, none, some, List,
  [], ◌∷◌, ◌++◌, ◌==◌, leb, has, keep, update, first, Result, ok, err, IsUnique, has-or, arith,
}
use pi_mob.Tables.{
  StreamId, Content, StoredEvent, QueueItem, QueueChange, dispatching, dispatched_item, host,
}
use pi_mob.Store.{
  Store, Tx, Fault, StoreErrorCode, transaction, ◌>>=◌, ◌>>◌, require, constraint, return, full,
}
use pi_mob.Store.Transactions.{Ends, Keeps, bind-Ends, then-Ends, Concludes, transaction-Concludes}
use pi_mob.Store.Journal.{append_event_tx}
use pi_mob.Store.Journal.Append.{IsFramed, append_event_tx-IsFramed}
use pi_mob.Store.Queue.{
  EventIds, FollowUp, new_item, insert_item, enqueue_follow_up_tx, enqueue_follow_up,
  emit_snapshot_tx, emit_queued_tx, list_follow_ups, waits_as, is_dispatched_as, in_state,
  claim_head, claim_next_follow_up, finish_found, finish_follow_up, waiting_count,
}
use pi_mob.Store.Queue.Waiting.{id_of, ChangesOne, list_follow_ups-ChangesOne}

-- What is true of the rows and the value of a body that does not throw.
abbrev pub Leaves : {A : Type 0} → (List QueueItem → A → Type 0) → Result Fault (Store × A) → Type 0
Leaves Q = Ends (λ t a. Q t.queue a)

-- What is true of the rows and the value of a transaction; one that fails leaves the rows alone.
abbrev pub After :
    {A : Type 0} → (List QueueItem → A → Type 0) → Store → Store × Result StoreErrorCode A → Type 0
After Q s = Concludes (λ t a. Q t.queue a) (λ t. t.queue ≡ s.queue)

pub transaction-After :
    {A : Type 0} (Q : List QueueItem → A → Type 0) (body : Tx A) (s : Store)
    → Leaves Q (body (record s { collecting = [] }))
    → After Q s (transaction body s)
transaction-After Q body s =
    transaction-Concludes (λ t a. Q t.queue a) (λ t. t.queue ≡ s.queue) body s (λ a t p c w k. k)
      (λ t p c w k. k) refl

-- An append leaves the rows of the queue alone, and with them what is true of them.
module _ (P : List QueueItem → Type 0) where
  abbrev Kept : {A : Type 0} → Store → A → Type 0
  Kept t a = P t.queue

  append-Leaves :
      (id : StreamId) (content : Content) (n : ℕ) (s : Store)
      → P s.queue
      → Ends Kept (append_event_tx id content n s)
  append-Leaves id content n s p =
      go (append_event_tx id content n s) (append_event_tx-IsFramed id content n s)
    where
      go : (o : Result Fault (Store × StoredEvent)) → Keeps (IsFramed s) o → Ends Kept o
      go (ok (t, a)) k = subst P (sym (ap (λ u. u.queue) k)) p
      go (err f) k = tt

  summarise-Leaves :
      (content : Content) (n : ℕ) (s : Store)
      → P s.queue
      → Ends Kept ((append_event_tx host content n >>= λ e. return tt) s)
  summarise-Leaves content n s p =
      bind-Ends Kept Kept (append_event_tx host content n) (λ a. return tt) s
        (append-Leaves host content n s p) (λ a t k. k)

  emit_snapshot-Leaves :
      (sid : ℕ) (change : QueueChange) (ids : EventIds) (s : Store)
      → P s.queue
      → Ends Kept (emit_snapshot_tx sid change ids s)
  unfolding emit_snapshot_tx
  emit_snapshot-Leaves sid change ids s p =
      then-Ends Kept Kept (append_event_tx _ _ _) _ s (append-Leaves _ _ _ s p)
        (λ a t k. summarise-Leaves _ _ t k)

  emit_queued-Leaves :
      (sid id position : ℕ) (ids : EventIds) (s : Store)
      → P s.queue
      → Ends Kept (emit_queued_tx sid id position ids s)
  unfolding emit_queued_tx
  emit_queued-Leaves sid id position ids s p =
      then-Ends Kept Kept (append_event_tx _ _ _ >> append_event_tx _ _ _) _ s
        (then-Ends Kept Kept (append_event_tx _ _ _) _ s (append-Leaves _ _ _ s p)
          (λ a t k. append-Leaves _ _ _ t k))
        (λ a t k. summarise-Leaves _ _ t k)

-- The rows once an item has been inserted, whose id was free.
abbrev pub Grown : QueueItem → List QueueItem → List QueueItem → Type 0
Grown item rows q =
    (q ≡ rows ++ (item ∷ [])) × (has (λ o. o.queue_item_id == item.queue_item_id) rows ≡ false)

insert_item-Leaves :
    (item : QueueItem) (s : Store) (rows : List QueueItem)
    → s.queue ≡ rows
    → Leaves (λ q a. Grown item rows q) (insert_item item s)
unfolding insert_item
insert_item-Leaves item s rows e =
    let same : QueueItem → Bool = λ o. o.queue_item_id == item.queue_item_id in
    let placed : QueueItem → Bool =
      λ o. (o.session_id == item.session_id) && (o.position == item.position) in
    go (has (λ o. same o || placed o) s.queue) (has (λ n. n == item.session_id) s.sessions)
      (ap (has (λ o. same o || placed o)) e ∙ has-or same placed rows)
  where
    go :
        (a b : Bool)
        → a ≡ (
            has (λ o. o.queue_item_id == item.queue_item_id) rows
            || has (λ o. (o.session_id == item.session_id) && (o.position == item.position)) rows)
        → Leaves
            (λ q u. Grown item rows q)
            ((constraint (not a && b) >> λ t. ok (record t { queue = t.queue ++ (item ∷ []) }, tt))
              s)
    go true b h = tt
    go false false h = tt
    go false true h = (ap (λ q. q ++ (item ∷ [])) e, ground (arith, h))

abbrev pub Enqueued : FollowUp → Store → List QueueItem → QueueItem → Type 0
Enqueued input s q item = Grown (new_item input s) s.queue q × (item ≡ new_item input s)

require-Leaves :
    (b : Bool) (code : StoreErrorCode) (s : Store) → Leaves (λ q a. q ≡ s.queue) (require b code s)
require-Leaves true code s = refl
require-Leaves false code s = tt

pub enqueue_follow_up-After :
    (s : Store) (input : FollowUp) (ids : EventIds)
    → After (Enqueued input s) s (enqueue_follow_up s input ids)
unfolding enqueue_follow_up enqueue_follow_up_tx
enqueue_follow_up-After s input ids =
    let item = new_item input s in
    let t = record s { collecting = [] } in
    let room = require (not (leb 10 (waiting_count input.session_id t))) full in
    let emit = emit_queued_tx input.session_id item.queue_item_id item.position ids in
    let P : List QueueItem → Type 0 = Grown item s.queue in
    transaction-After (Enqueued input s) (enqueue_follow_up_tx input ids) s (
      then-Ends (λ u a. P u.queue) (λ u a. Enqueued input s u.queue a)
        (room >> insert_item item >> emit) (return item) t
        (then-Ends (λ u a. P u.queue) (λ u a. P u.queue) (room >> insert_item item) emit t
          (then-Ends (λ u a. u.queue ≡ s.queue) (λ u a. P u.queue) room (insert_item item) t
            (require-Leaves (not (leb 10 (waiting_count input.session_id t))) full t)
            (λ a u k. insert_item-Leaves item u s.queue k))
          (λ a u k. emit_queued-Leaves P input.session_id item.queue_item_id item.position ids u k))
        (λ a u k. (k, refl)))

-- The rows once the first of the messages has been claimed.
abbrev pub Claimed : List QueueItem → List QueueItem → List QueueItem → Option QueueItem → Type 0
Claimed rows items q none = (items ≡ []) × (q ≡ rows)
Claimed rows items q (some item) =
    (h : QueueItem) × (t : List QueueItem) × (items ≡ h ∷ t)
    × (item ≡ in_state dispatching h)
    × (q ≡ update (waits_as h.queue_item_id) (in_state dispatching) rows)

claim_head-Leaves :
    (sid : ℕ) (ids : EventIds) (items : List QueueItem) (s : Store)
    → ChangesOne s.queue items
    → Leaves (Claimed s.queue items) (claim_head sid ids items s)
unfolding claim_head
claim_head-Leaves sid ids [] s one = (refl, refl)
claim_head-Leaves sid ids (h ∷ t) s one =
    let rows = update (waits_as h.queue_item_id) (in_state dispatching) s.queue in
    let emit = emit_snapshot_tx sid (dispatched_item h.queue_item_id) ids in
    rw one (
      then-Ends (λ u a. u.queue ≡ rows) (λ u a. Claimed s.queue (h ∷ t) u.queue a) emit
        (return (some (in_state dispatching h))) (record s { queue = rows })
        (emit_snapshot-Leaves (λ q. q ≡ rows) sid (dispatched_item h.queue_item_id) ids
          (record s { queue = rows }) refl)
        (λ a u k. (h, t, refl, refl, k)))

pub claim_next_follow_up-After :
    (s : Store) (sid : ℕ) (ids : EventIds)
    → IsUnique id_of s.queue
    → After (Claimed s.queue (list_follow_ups sid s.queue)) s (claim_next_follow_up s sid ids)
unfolding claim_next_follow_up
claim_next_follow_up-After s sid ids u =
    transaction-After (Claimed s.queue (list_follow_ups sid s.queue))
      (λ t. claim_head sid ids (list_follow_ups sid t.queue) t) s
      (claim_head-Leaves sid ids (list_follow_ups sid s.queue) (record s { collecting = [] })
        (list_follow_ups-ChangesOne sid s.queue u))

-- The rows once the message that is under way has been deleted.
abbrev pub Completed : ℕ → Option QueueItem → List QueueItem → List QueueItem → Type 0
Completed id none rows q = q ≡ rows
Completed id (some row) rows q = q ≡ keep (λ item. not (item.queue_item_id == id)) rows

finish_found-Leaves :
    (id : ℕ) (ids : EventIds) (o : Option QueueItem) (s : Store)
    → Leaves (λ q a. Completed id o s.queue q) (finish_found id false ids o s)
unfolding finish_found
finish_found-Leaves id ids none s = refl
finish_found-Leaves id ids (some row) s =
    let rows = keep (λ item. not (item.queue_item_id == id)) s.queue in
    emit_snapshot-Leaves (λ q. q ≡ rows) _ _ ids (record s { queue = rows }) refl

pub finish_follow_up-After :
    (s : Store) (id : ℕ) (ids : EventIds)
    → After
        (λ q a. Completed id (first (is_dispatched_as id) s.queue) s.queue q)
        s
        (finish_follow_up s id false ids)
unfolding finish_follow_up
finish_follow_up-After s id ids =
    transaction-After (λ q a. Completed id (first (is_dispatched_as id) s.queue) s.queue q)
      (λ t. finish_found id false ids (first (is_dispatched_as id) t.queue) t) s
      (finish_found-Leaves id ids (first (is_dispatched_as id) s.queue)
        (record s { collecting = [] }))
