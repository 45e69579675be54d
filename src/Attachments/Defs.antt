-- ===== src/Attachments/Defs.antt =====
-- packages/bridge/src/core/attachments.ts: the rows, the files and the transactions of AttachmentStore. A
-- file stands under the public id of its attachment, an index and a suffix.
use pi_mob.Prelude.{
  ℕ, ◌*◌, Bool, true, false, ◌&&◌, Option, none, List, ◌==◌, if◌then◌else◌, first, Result, ok, err,
}

abbrev pub Text : Type 0
Text = List ℕ

abbrev pub Bytes : Type 0
Bytes = List ℕ

-- AttachmentErrorCode, and any other error that is thrown.
pub data AttachmentErrorCode : Type 0 where
  not_found expired incomplete released conflict too_large bad_chunk bad_hash limit_exceeded
        bad_request io :
      AttachmentErrorCode
  other_error : AttachmentErrorCode

pub data AttachmentState : Type 0 where
  is_open is_complete is_aborted is_expired : AttachmentState

-- A row of `attachments`, and with its public id the AttachmentRecord.
pub record Attachment : Type 0 where
  pub id : ℕ
  pub public_id : ℕ
  pub client_upload_id : Option Text
  pub content_type : Text
  pub filename : Option Text
  pub declared_total_bytes : ℕ
  pub received_bytes : ℕ
  pub chunk_count : ℕ
  pub state : AttachmentState
  pub expected_sha256 : Option Text
  pub final_sha256 : Option Text
  pub created_at : ℕ
  pub updated_at : ℕ
  pub expires_at : ℕ
  pub completed_at : Option ℕ
  pub chunk_size : ℕ

-- A row of `chunks`.
pub record Chunk : Type 0 where
  pub attachment_id : ℕ
  pub chunk_index : ℕ
  pub byte_offset : ℕ
  pub byte_length : ℕ
  pub sha256 : Text
  pub received_at : ℕ

pub record AttachmentLimits : Type 0 where
  pub max_attachment_bytes : ℕ
  pub chunk_max_bytes : ℕ
  pub chunk_min_bytes : ℕ
  pub max_open_attachments : ℕ
  pub max_chunks_per_attachment : ℕ
  pub max_filename_length : ℕ
  pub ttl_ms : ℕ
  pub completed_ttl_ms : ℕ

abbrev pub default_limits : AttachmentLimits
default_limits = record {
  max_attachment_bytes = 10 * 1024 * 1024;
  chunk_max_bytes = 8 * 1024 * 1024;
  chunk_min_bytes = 1;
  max_open_attachments = 1024;
  max_chunks_per_attachment = 16384;
  max_filename_length = 200;
  ttl_ms = 24 * 60 * 60000;
  completed_ttl_ms = 24 * 60 * 60000;
}

pub data Suffix : Type 0 where
  part blob : Suffix

abbrev suffix_eq : Suffix → Suffix → Bool
suffix_eq part part = true
suffix_eq blob blob = true
suffix_eq _ _ = false

-- `blobs/<public id>/<index>.<suffix>`; none where there is no such file.
abbrev pub Disk : Type 0
Disk = ℕ → ℕ → Suffix → Option Bytes

-- A file that is written, or with none removed.
abbrev pub put_file : ℕ → ℕ → Suffix → Option Bytes → Disk → Disk
put_file p i x bytes disk q j y = if q == p && (j == i && suffix_eq y x) then bytes else disk q j y

-- `removeBlobs`.
abbrev pub remove_blobs : ℕ → Disk → Disk
remove_blobs p disk q j y = if q == p then none else disk q j y

pub record AttachmentStore : Type 0 where
  pub limits : AttachmentLimits
  pub rows : List Attachment
  pub chunks : List Chunk
  pub disk : Disk

-- The body of a transaction: the store that it leaves, and what it returns or throws.
abbrev pub Tx : Type 0 → Type 0
Tx A = AttachmentStore → AttachmentStore × Result AttachmentErrorCode A

-- `db.transaction`: a throw rolls the tables back, and leaves the files as they are.
abbrev pub concluded :
    {A : Type 0}
    → AttachmentStore
    → AttachmentStore × Result AttachmentErrorCode A
    → AttachmentStore × Result AttachmentErrorCode A
concluded s (t, ok a) = (t, ok a)
concluded s (t, err e) = (record t { rows = s.rows; chunks = s.chunks }, err e)

abbrev pub transaction :
    {A : Type 0} → Tx A → AttachmentStore → AttachmentStore × Result AttachmentErrorCode A
transaction body s = concluded s (body s)

abbrev pub has_public : ℕ → Attachment → Bool
has_public p a = a.public_id == p

abbrev pub has_id : ℕ → Attachment → Bool
has_id i a = a.id == i

-- `getByPublicIdTx` and `getByPublicIdForUpdateTx`.
abbrev pub by_public : ℕ → AttachmentStore → Option Attachment
by_public p s = first (has_public p) s.rows

-- `getByInternalIdTx`.
abbrev pub by_internal : ℕ → AttachmentStore → Option Attachment
by_internal i s = first (has_id i) s.rows

abbrev pub is_open_or_complete : AttachmentState → Bool
is_open_or_complete is_open = true
is_open_or_complete is_complete = true
is_open_or_complete _ = false

abbrev pub of_attachment : ℕ → Chunk → Bool
of_attachment i c = c.attachment_id == i
