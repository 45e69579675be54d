-- ===== src/Attachments/Ends.antt =====
-- packages/bridge/src/core/attachments.ts: abort, sweep, retain, resolve, and what is retained. The time is
-- a natural number; an installation's uploads are those whose id begins with its own and a colon.
use pi_mob.Prelude.{
  ℕ, ◌+◌, ◌*◌, min, max, Bool, false, not, ◌&&◌, ◌||◌, Option, none, some, List, [], ◌∷◌, ◌++◌, map,
  ltb, leb, if◌then◌else◌, keep, is_some, Result, ok, err,
}
use pi_mob.Attachments.Defs.{
  Text, AttachmentErrorCode, not_found, expired, conflict, bad_request, AttachmentState, is_open,
  is_complete, is_aborted, is_expired, Attachment, Disk, AttachmentStore, Tx, transaction,
  by_public, by_internal, is_open_or_complete, remove_blobs,
}
use pi_mob.Attachments.Names.{is_public_id}
use pi_mob.Attachments.Append.{set_row, mark_expired}

abbrev aborted_row : ℕ → Attachment → Attachment
aborted_row now a = record a { state = is_aborted; updated_at = now }

pub abort_state : AttachmentState → Attachment → ℕ → Tx (Option Attachment)
abort_state is_complete r now s = (s, err conflict)
abort_state is_aborted r now s = (s, ok (some r))
abort_state is_expired r now s = (mark_expired r.id now s, err expired)
abort_state is_open r now s =
    if leb r.expires_at now
    then (mark_expired r.id now s, err expired)
    else let t = set_row r.id (aborted_row now) s in
      let u = record t { disk = remove_blobs r.public_id t.disk } in (u, ok (by_internal r.id u))

pub abort_found : Option Attachment → ℕ → Tx (Option Attachment)
abort_found none now s = (s, err not_found)
abort_found (some r) now s = abort_state r.state r now s

-- The rows that `sweep` expires: those in progress, then those that are complete.
abbrev pub is_stale_open : ℕ → Attachment → Bool
is_stale_open now a = elim a.state [ is_open ↦ leb a.expires_at now | _ ↦ false ]

abbrev pub is_stale_complete : ℕ → Attachment → Bool
is_stale_complete now a = elim a.state [
  | is_complete ↦ is_some a.completed_at && leb a.expires_at now
  | _ ↦ false
]

abbrev expired_at : ℕ → Attachment → Attachment
expired_at now a = record a { state = is_expired; updated_at = now }

abbrev expire_each : ℕ → List Attachment → AttachmentStore → AttachmentStore
expire_each now [] s = s
expire_each now (a ∷ as_) s = expire_each now as_ (set_row a.id (expired_at now) s)

abbrev remove_each : List ℕ → Disk → Disk
remove_each [] disk = disk
remove_each (p ∷ ps) disk = remove_each ps (remove_blobs p disk)

abbrev total : (Attachment → ℕ) → List Attachment → ℕ
total f [] = 0
total f (a ∷ as_) = f a + total f as_

pub record SweepResult : Type 0 where
  pub removed : List ℕ
  pub bytes_reclaimed : ℕ

-- `sweep`.
unfoldable pub sweep : AttachmentStore → ℕ → AttachmentStore × SweepResult
sweep s now =
    let opens = keep (is_stale_open now) s.rows in
    let t = expire_each now opens s in
    let completes = keep (is_stale_complete now) t.rows in
    let u = expire_each now completes t in
    let removed =
      map (λ (a : Attachment). a.public_id) opens
      ++ map (λ (a : Attachment). a.public_id) completes in
    (
      record u { disk = remove_each removed u.disk },
      record {
        removed = removed;
        bytes_reclaimed =
            total (λ a. a.received_bytes) opens + total (λ a. a.declared_total_bytes) completes;
      },
    )

abbrev is_retained : Attachment → Bool
is_retained a = is_open_or_complete a.state

-- `aggregateRetainedBytes`.
pub aggregate_retained_bytes : AttachmentStore → ℕ
aggregate_retained_bytes s = total (λ a. a.received_bytes) (keep is_retained s.rows)

abbrev week_ms : ℕ
week_ms = 7 * 24 * 60 * 60000

pub retain_complete : (until clock : ℕ) → Attachment → Tx (Option Attachment)
retain_complete until clock r s =
    let bounded = min (max r.expires_at until) (clock + week_ms) in
    let t = set_row r.id (λ a. record a { expires_at = bounded; updated_at = clock }) s in
    (t, ok (by_internal r.id t))

pub retain_found : (until clock : ℕ) → Option Attachment → Tx (Option Attachment)
retain_found until clock none s = (s, err not_found)
retain_found until clock (some r) s = elim r.state [
  | is_complete ↦ retain_complete until clock r s
  | _ ↦ (s, err not_found)
]

pub data Unavailable : Type 0 where
  no_such is_late is_released is_incomplete : Unavailable

-- AttachmentResolution: what an available attachment is, or why it is not.
pub data Resolution : Type 0 where
  available :
      (content_type : Text) (filename : Option Text) (bytes : ℕ) (sha256 : Option Text)
      (expires_at : ℕ)
      → Resolution
  unavailable : Unavailable → Resolution

abbrev is_out_of_time : Option ℕ → Attachment → Bool
is_out_of_time none r = false
is_out_of_time (some t) r = ltb t r.created_at || ltb r.expires_at t

pub resolve_complete : Option ℕ → ℕ → Attachment → Resolution
resolve_complete issued_at clock r =
    if leb r.expires_at clock
    then unavailable is_late
    else if is_out_of_time issued_at r
    then unavailable is_late
    else available r.content_type r.filename r.declared_total_bytes r.final_sha256 r.expires_at

pub resolve_state : AttachmentState → Option ℕ → ℕ → Attachment → Resolution
resolve_state is_aborted issued_at clock r = unavailable is_released
resolve_state is_expired issued_at clock r = unavailable is_late
resolve_state is_open issued_at clock r = unavailable is_incomplete
resolve_state is_complete issued_at clock r = resolve_complete issued_at clock r

pub resolve_found : Option ℕ → ℕ → Option Attachment → Resolution
resolve_found issued_at clock none = unavailable no_such
resolve_found issued_at clock (some r) = resolve_state r.state issued_at clock r

module _ (id_text : ℕ → Text) where
  -- `abort`.
  unfoldable pub abort :
      AttachmentStore
      → (id now : ℕ) → AttachmentStore × Result AttachmentErrorCode (Option Attachment)
  abort s id now =
      if not (is_public_id (id_text id))
      then (s, err bad_request)
      else transaction (λ t. abort_found (by_public id t) now t) s

  -- `retain`, with the store's clock.
  unfoldable pub retain :
      AttachmentStore
      → (id until clock : ℕ) → AttachmentStore × Result AttachmentErrorCode (Option Attachment)
  retain s id until clock =
      if not (is_public_id (id_text id))
      then (s, err bad_request)
      else transaction (λ t. retain_found until clock (by_public id t) t) s

  -- `resolve`, of a bare id or of a reference with the time it was issued.
  unfoldable pub resolve : AttachmentStore → (id : ℕ) → Option ℕ → (clock : ℕ) → Resolution
  resolve s id issued_at clock =
      if not (is_public_id (id_text id))
      then unavailable no_such
      else resolve_found issued_at clock (by_public id s)
