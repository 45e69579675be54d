-- ===== src/Tables.antt =====
-- packages/bridge/src/core/store.ts: the rows of the durable store, as the migrations declare them.
-- Identifiers, hashes, texts and times are numbers, which the store only compares.
use pi_mob.Prelude.{ℕ, Bool, true, false, Option, List, ◌==◌, ◌≡◌, ◌↔◌, arith}
use native.Mathlib.Decide.{ℕ_discrete}

pub data StreamId : Type 0 where
  host : StreamId
  session : ℕ → StreamId

-- Equality of the texts `host:<id>` and `session:<id>`.
abbrev pub stream_eq : StreamId → StreamId → Bool
stream_eq host host = true
stream_eq (session a) (session b) = a == b
stream_eq _ _ = false

pub stream_eq_iff : (a b : StreamId) → (stream_eq a b ≡ true) ↔ (a ≡ b)
stream_eq_iff host host = ground arith
stream_eq_iff host (session b) = ground arith
stream_eq_iff (session a) host = ground arith
stream_eq_iff (session a) (session b) = ground arith

pub data CommandState : Type 0 where
  accepted dispatched running completed failed indeterminate : CommandState

abbrev pub command_state_eq : CommandState → CommandState → Bool
command_state_eq accepted accepted = true
command_state_eq dispatched dispatched = true
command_state_eq running running = true
command_state_eq completed completed = true
command_state_eq failed failed = true
command_state_eq indeterminate indeterminate = true
command_state_eq _ _ = false

-- What moved a queue, which a `queue.snapshot` names: `removedQueueItemId`, `cleared`, and so on.
pub data QueueChange : Type 0 where
  removed_item dispatched_item recovered_item completed_item : ℕ → QueueChange
  cleared_items unnamed_change : QueueChange

-- An item of the payload: its id, the position from 1, the message, the attachments and the time.
abbrev pub QueueEntry : Type 0
QueueEntry = ℕ × ℕ × ℕ × List ℕ × ℕ

-- The type and the payload of an event; `other` is one that a caller of `appendEvent` makes. A
-- number behind the items of a queue is `queueCount`.
pub data Content : Type 0 where
  other : ℕ → ℕ → Content
  command_state : ℕ → ℕ → CommandState → Content
  controller_state : StreamId → Option (ℕ × ℕ × ℕ) → Content
  turn_queued : ℕ → ℕ → ℕ → List QueueEntry → ℕ → Content
  queue_snapshot : ℕ → QueueChange → List QueueEntry → ℕ → Content
  session_summary : ℕ → ℕ → Content

pub Content-discrete : Discrete Content
Content-discrete = hlevel ℕ_discrete

pub record StoredEvent : Type 0 where
  pub event_id : ℕ
  pub stream_id : StreamId
  pub cursor : ℕ
  pub content : Content
  pub created_at : ℕ

pub record Stream : Type 0 where
  pub stream_id : StreamId
  -- Some session for the scope `session`, none for the scope `host`.
  pub session_id : Option ℕ
  pub current : ℕ
  pub floor : ℕ

pub record StoredCommand : Type 0 where
  pub command_id : ℕ
  pub type : ℕ
  pub scope_key : StreamId
  pub stream_id : StreamId
  pub semantic_hash : ℕ
  pub payload : ℕ
  pub state : CommandState
  pub dispatch_count : ℕ
  pub created_at : ℕ

pub data TakeoverReason : Type 0 where
  explicit_takeover same_installation_reclaim expired : TakeoverReason

pub record Lease : Type 0 where
  pub scope_key : StreamId
  pub lease_id : ℕ
  pub installation_id : ℕ
  pub connection_id : ℕ
  pub expires_at : ℕ
  pub reclaimable_until : Option ℕ
  pub disconnected_at : Option ℕ
  pub revoked_at : Option ℕ
  pub takeover_reason : Option TakeoverReason

pub data ItemState : Type 0 where
  queued dispatching : ItemState

pub record QueueItem : Type 0 where
  pub queue_item_id : ℕ
  pub session_id : ℕ
  pub message : ℕ
  pub attachment_ids : List ℕ
  pub position : ℕ
  pub state : ItemState
  pub created_at : ℕ

pub data DialogState : Type 0 where
  pending responded expired cancelled orphaned : DialogState

pub record Dialog : Type 0 where
  pub dialog_id : ℕ
  pub session_id : ℕ
  pub upstream_id : ℕ
  pub method : ℕ
  pub request : ℕ
  pub state : DialogState
  pub created_at : ℕ
  pub expires_at : ℕ

pub record Secret : Type 0 where
  pub secret_hash : ℕ
  pub created_at : ℕ
  pub expires_at : ℕ
  pub used_at : Option ℕ
  pub used_by : Option ℕ

pub data EnrollmentSource : Type 0 where
  qr manual cli seed : EnrollmentSource

pub record Credential : Type 0 where
  pub installation_id : ℕ
  pub credential_hash : ℕ
  pub enrollment_secret_hash : ℕ
  pub enrollment_source : EnrollmentSource
  pub created_at : ℕ
  pub last_seen_at : ℕ
  pub expires_at : Option ℕ
  pub revoked : Option (ℕ × ℕ)

-- A row of `canonical_session_events`.
pub record CanonicalRecord : Type 0 where
  pub session_id : ℕ
  pub sequence : ℕ
  pub event_id : ℕ
  pub source_event_id : Option ℕ
  pub event_type : ℕ
  pub occurred_at : ℕ
  pub payload : ℕ
  pub created_at : ℕ

pub data Platform : Type 0 where
  apns fcm : Platform

abbrev pub platform_eq : Platform → Platform → Bool
platform_eq apns apns = true
platform_eq fcm fcm = true
platform_eq _ _ = false

-- A row of `notification_devices`; the reason and the time of a rejection are written together.
pub record Device : Type 0 where
  pub device_id : ℕ
  pub installation_id : ℕ
  pub platform : Platform
  pub push_token : ℕ
  pub app_version : ℕ
  pub token_revision : ℕ
  pub last_seen_at : ℕ
  pub created_at : ℕ
  pub rejected : Option (ℕ × ℕ)

-- A row of `notification_dedup`; its columns `kind` and `session_id`, which nothing reads, have no
-- model.
pub record DedupRow : Type 0 where
  pub source_event_id : ℕ
  pub created_at : ℕ
