-- ===== src/Store/Queue/Fifo.antt =====
-- packages/bridge/src/core/store.ts: runs of the operations of the queue, of all sessions, and the
-- order in which the messages of one session leave it.
use pi_mob.Prelude.{
  ℕ, ◌+◌, ◌≡◌, ◌≢◌, refl, sym, ◌∙◌, ap, subst, true, false, not, Option, none, some, List, [], ◌∷◌,
  ◌++◌, ◌==◌, map, keep, update, first, Result, ok, err, Bool-cases, inl, inr, arith, IsUnique,
  append_assoc, append-nil, Option-cases, first, snoc-IsUnique, update-IsUnique, keep-IsUnique,
  ==_iff,
}
use mathlib.Core.List.{map-append}
use pi_mob.Tables.{QueueItem, dispatching}
use pi_mob.Store.{Store, StoreErrorCode}
use pi_mob.Store.Queue.{
  EventIds, FollowUp, new_item, enqueue_follow_up, claim_next_follow_up, finish_follow_up,
  list_follow_ups, waits_in, waits_as, is_dispatched_as, in_state, last_position,
}
use pi_mob.Store.Queue.Waiting.{
  id_of, list_follow_ups-snoc, list_follow_ups-snoc_other, list_follow_ups-taken,
  list_follow_ups-taken_other, list_follow_ups-finished, list_follow_ups-waits,
}
use pi_mob.Store.Queue.Effects.{
  After, Enqueued, Claimed, Completed, enqueue_follow_up-After, claim_next_follow_up-After,
  finish_follow_up-After,
}

pub data Call : Type 0 where
  enqueue : FollowUp → EventIds → Call
  claim : ℕ → EventIds → Call
  complete : ℕ → EventIds → Call

-- The store behind a call, the items that it told its caller were accepted, and those that it handed
-- out to be sent.
pub record Traffic : Type 0 where
  pub store : Store
  pub accepted : List QueueItem
  pub claimed : List QueueItem

abbrev from_enqueue : Store × Result StoreErrorCode QueueItem → Traffic
from_enqueue (s, ok item) = record { store = s; accepted = item ∷ []; claimed = [] }
from_enqueue (s, err code) = record { store = s; accepted = []; claimed = [] }

abbrev from_claim : Store × Result StoreErrorCode (Option QueueItem) → Traffic
from_claim (s, ok (some item)) = record { store = s; accepted = []; claimed = item ∷ [] }
from_claim (s, ok none) = record { store = s; accepted = []; claimed = [] }
from_claim (s, err code) = record { store = s; accepted = []; claimed = [] }

abbrev from_finish : Store × Result StoreErrorCode (Unit {0}) → Traffic
from_finish (s, o) = record { store = s; accepted = []; claimed = [] }

abbrev pub call : Store → Call → Traffic
call s (enqueue input ids) = from_enqueue (enqueue_follow_up s input ids)
call s (claim sid ids) = from_claim (claim_next_follow_up s sid ids)
call s (complete id ids) = from_finish (finish_follow_up s id false ids)

-- The calls, one after the other.
abbrev pub calls : Store → List Call → Traffic
calls s [] = record { store = s; accepted = []; claimed = [] }
calls s (c ∷ cs) =
    let here = call s c in
    let rest = calls here.store cs in
    record {
      store = rest.store;
      accepted = here.accepted ++ rest.accepted;
      claimed = here.claimed ++ rest.claimed;
    }

-- What a user wrote: the item's id, the message and the attachments.
abbrev pub Written : Type 0
Written = ℕ × ℕ × List ℕ

abbrev pub written : QueueItem → Written
written item = (item.queue_item_id, item.message, item.attachment_ids)

-- What was written to a session, in the order of the items.
abbrev pub written_to : ℕ → List QueueItem → List Written
written_to sid items = map written (keep (λ item. item.session_id == sid) items)

-- What waits for a session.
abbrev pub waiting : ℕ → Store → List Written
waiting sid s = map written (list_follow_ups sid s.queue)

-- What has been handed out and what still waits is what waited before and what has been accepted,
-- in this order.
abbrev pub IsFifo : ℕ → Store → Traffic → Type 0
IsFifo sid s t =
    written_to sid t.claimed ++ waiting sid t.store ≡ waiting sid s ++ written_to sid t.accepted

-- Each operation keeps the ids unique, and its queue first in, first out.
abbrev IsSound : Store → Traffic → Type 0
IsSound s t = IsUnique id_of t.store.queue × ((sid : ℕ) → IsFifo sid s t)

unmoved :
    (s t : Store)
    → t.queue ≡ s.queue
    → IsUnique id_of s.queue
    → IsSound s (record { store = t; accepted = []; claimed = [] })
unmoved s t e u = (
  subst (IsUnique id_of) (sym e) u,
  λ sid. ap (λ q. map written (list_follow_ups sid q)) e ∙ sym (append-nil (waiting sid s)),
)

enqueued_fifo :
    (s : Store) (input : FollowUp) (sid : ℕ)
    → map written (list_follow_ups sid (s.queue ++ (new_item input s ∷ [])))
      ≡ waiting sid s ++ written_to sid (new_item input s ∷ [])
enqueued_fifo s input sid =
    let n = new_item input s in
    elim (Bool-cases (n.session_id == sid)) [
      | inl e ↦
          let same : n.session_id ≡ sid = (==_iff _ _).0 e in
          let behind : n.position ≡ last_position sid s.queue + 1 =
            ap (λ m. last_position m s.queue + 1) same in
          let waits : waits_in sid n ≡ true = rw e refl in
          ap (map written) (list_follow_ups-snoc sid s.queue n waits behind)
          ∙ map-append written (list_follow_ups sid s.queue) (n ∷ [])
          ∙ rw e refl
      | inr e ↦
          let asleep : waits_in sid n ≡ false = rw e refl in
          ap (map written) (list_follow_ups-snoc_other sid s.queue n asleep)
          ∙ rw e (sym (append-nil (waiting sid s)))
    ]

enqueue-IsSound :
    (s : Store) (input : FollowUp) (o : Store × Result StoreErrorCode QueueItem)
    → After (Enqueued input s) s o
    → IsUnique id_of s.queue
    → IsSound s (from_enqueue o)
enqueue-IsSound s input (t, err code) k u = unmoved s t k u
enqueue-IsSound s input (t, ok item) ((rows, free), is_new) u = (
  subst (IsUnique id_of) (sym rows) (snoc-IsUnique id_of s.queue (new_item input s) free u),
  λ sid.
      ap (λ q. map written (list_follow_ups sid q)) rows
      ∙ enqueued_fifo s input sid
      ∙ ap (λ i. waiting sid s ++ written_to sid (i ∷ [])) (sym is_new),
)

claimed_fifo :
    (s : Store) (own sid : ℕ) (h : QueueItem) (t : List QueueItem)
    → IsUnique id_of s.queue
    → list_follow_ups own s.queue ≡ h ∷ t
    → written_to sid (in_state dispatching h ∷ [])
        ++ map written
            (list_follow_ups sid (update (waits_as h.queue_item_id) (in_state dispatching) s.queue))
      ≡ waiting sid s
claimed_fifo s own sid h t u e =
    let waits = list_follow_ups-waits own s.queue h t e in
    elim (Bool-cases (h.session_id == sid)) [
      | inl same ↦
          let here : own ≡ sid = ground (arith, waits, same) in
          let list : list_follow_ups sid s.queue ≡ h ∷ t =
            subst (λ m. list_follow_ups m s.queue ≡ h ∷ t) here e in
          rw same (
            ap (λ l. written h ∷ map written l) (list_follow_ups-taken sid s.queue h t u list)
            ∙ ap (map written) (sym list))
      | inr other ↦
          let apart : own ≢ sid = ground (arith, waits, other) in
          rw other (ap (map written) (list_follow_ups-taken_other own sid s.queue h t u apart e))
    ]

claim-IsSound :
    (s : Store) (own : ℕ) (o : Store × Result StoreErrorCode (Option QueueItem))
    → After (Claimed s.queue (list_follow_ups own s.queue)) s o
    → IsUnique id_of s.queue
    → IsSound s (from_claim o)
claim-IsSound s own (t, err code) k u = unmoved s t k u
claim-IsSound s own (t, ok none) (empty, k) u = unmoved s t k u
claim-IsSound s own (t, ok (some item)) (h, rest, list, is_head, rows) u = (
  subst (IsUnique id_of) (sym rows) (
      update-IsUnique id_of (waits_as h.queue_item_id) (in_state dispatching) s.queue (λ x. refl)
        u),
  λ sid.
      ap (λ i. written_to sid (i ∷ []) ++ waiting sid t) is_head
      ∙ ap
          (λ q. written_to sid (in_state dispatching h ∷ []) ++ map written (list_follow_ups sid q))
          rows
      ∙ claimed_fifo s own sid h rest u list
      ∙ sym (append-nil (waiting sid s)),
)

complete-IsSound :
    (s : Store) (id : ℕ) (o : Store × Result StoreErrorCode (Unit {0}))
    → After (λ q a. Completed id (first (is_dispatched_as id) s.queue) s.queue q) s o
    → IsUnique id_of s.queue
    → IsSound s (from_finish o)
complete-IsSound s id (t, err code) k u = unmoved s t k u
complete-IsSound s id (t, ok a) k u = elim (Option-cases (first (is_dispatched_as id) s.queue)) [
  | inl e ↦ unmoved s t (rw e at k) u
  | inr (row, e) ↦
      let rows : t.queue ≡ keep (λ item. not (item.queue_item_id == id)) s.queue = rw e at k in
      (
        subst (IsUnique id_of) (sym rows)
            (keep-IsUnique id_of (λ item. not (item.queue_item_id == id)) s.queue u),
        λ sid.
            ap (λ q. map written (list_follow_ups sid q)) rows
            ∙ ap (map written) (list_follow_ups-finished sid id s.queue row u e)
            ∙ sym (append-nil (waiting sid s)),
      )
]

call-IsSound : (s : Store) (c : Call) → IsUnique id_of s.queue → IsSound s (call s c)
call-IsSound s (enqueue input ids) u =
    enqueue-IsSound s input (enqueue_follow_up s input ids) (enqueue_follow_up-After s input ids) u
call-IsSound s (claim sid ids) u =
    claim-IsSound s sid (claim_next_follow_up s sid ids) (claim_next_follow_up-After s sid ids u) u
call-IsSound s (complete id ids) u =
    complete-IsSound s id (finish_follow_up s id false ids) (finish_follow_up-After s id ids) u

written_to-append :
    (sid : ℕ) (xs ys : List QueueItem)
    → written_to sid (xs ++ ys) ≡ written_to sid xs ++ written_to sid ys
written_to-append sid [] ys = refl
written_to-append sid (x ∷ xs) ys = elim (Bool-cases (x.session_id == sid)) [
  | inl e ↦ rw (e, written_to-append sid xs ys)
  | inr e ↦ rw (e, written_to-append sid xs ys)
]

-- Whatever enqueues, claims and completions run, of whichever sessions, and whichever of them throw:
-- the messages that a session's claims have handed out, followed by those that still wait for it, are
-- those that waited for it at first, followed by those that its enqueues have accepted, each once, with its
-- attachments, and in this order. The ids of the items are unique at first.
pub calls-IsFifo :
    (s : Store) (cs : List Call) (sid : ℕ) → IsUnique id_of s.queue → IsFifo sid s (calls s cs)
calls-IsFifo s [] sid u = sym (append-nil (waiting sid s))
calls-IsFifo s (c ∷ cs) sid u =
    let here = call s c in
    let (unique, fifo) = call-IsSound s c u in
    let rest = calls here.store cs in
    let ih = calls-IsFifo here.store cs sid unique in
    ap (λ w. w ++ waiting sid rest.store) (written_to-append sid here.claimed rest.claimed)
    ∙ append_assoc (written_to sid here.claimed) (written_to sid rest.claimed)
        (waiting sid rest.store)
    ∙ ap (λ w. written_to sid here.claimed ++ w) ih
    ∙ sym (
        append_assoc (written_to sid here.claimed) (waiting sid here.store)
          (written_to sid rest.accepted))
    ∙ ap (λ w. w ++ written_to sid rest.accepted) (fifo sid)
    ∙ append_assoc (waiting sid s) (written_to sid here.accepted) (written_to sid rest.accepted)
    ∙ ap (λ w. waiting sid s ++ w) (sym (written_to-append sid here.accepted rest.accepted))
