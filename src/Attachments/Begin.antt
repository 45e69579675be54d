-- ===== src/Attachments/Begin.antt =====
-- packages/bridge/src/core/attachments.ts: begin. Of the numbers that a caller may pass for the sizes and the
-- time, the model has the natural ones.
use pi_mob.Prelude.{
  ℕ, ◌+◌, min, max, Bool, true, false, not, ◌||◌, Option, none, some, List, [], ◌∷◌, ◌++◌, ltb, leb,
  ◌==◌, if◌then◌else◌, first, has, keep, length, Result, ok, err,
}
use pi_mob.Cursor.{text_eq}
use pi_mob.Attachments.Defs.{
  Text, AttachmentErrorCode, bad_request, too_large, bad_chunk, limit_exceeded, other_error,
  is_open, Attachment, AttachmentLimits, AttachmentStore, Tx, transaction, by_internal,
}
use pi_mob.Attachments.Names.{trim, normalise_content_type, normalise_filename, normalise_sha256}

pub record BeginInput : Type 0 where
  pub content_type : Text
  pub total_bytes : ℕ
  pub chunk_size : Option ℕ
  pub filename : Option Text
  pub sha256 : Option Text
  pub client_upload_id : Option Text

pub data Mismatch : Type 0 where
  sha256_differs total_bytes_differ content_type_differs : Mismatch

-- The record that `begin` returns, under its kind.
pub data BeginResult : Type 0 where
  created : Option Attachment → BeginResult
  duplicate : Attachment → BeginResult
  conflicts : Attachment → Mismatch → BeginResult

-- The normal forms that the row is made of.
pub record Desired : Type 0 where
  pub content_type : Text
  pub filename : Option Text
  pub sha : Option Text
  pub total_bytes : ℕ
  pub chunk_size : ℕ
  pub client_upload_id : Option Text

abbrev pub opt_text_eq : Option Text → Option Text → Bool
opt_text_eq none none = true
opt_text_eq (some a) (some b) = text_eq a b
opt_text_eq _ _ = false

-- `detectBeginMismatch`.
abbrev by_metadata : Attachment → Desired → Option Mismatch
by_metadata a d =
    if not (a.declared_total_bytes == d.total_bytes)
    then some total_bytes_differ
    else if not (text_eq a.content_type d.content_type)
    then some content_type_differs
    else none

abbrev mismatch_of : Option Text → Option Text → Attachment → Desired → Option Mismatch
mismatch_of (some e) (some w) a d = if text_eq e w then none else some sha256_differs
mismatch_of (some e) none a d = by_metadata a d
mismatch_of none w a d = by_metadata a d

pub detect_begin_mismatch : Attachment → Desired → Option Mismatch
detect_begin_mismatch a d = mismatch_of a.expected_sha256 d.sha a d

abbrev pub is_open_row : Attachment → Bool
is_open_row a = elim a.state [ is_open ↦ true | _ ↦ false ]

abbrev pub new_row : AttachmentLimits → (id public_id now : ℕ) → Desired → Attachment
new_row l id public_id now d = record {
  id = id;
  public_id = public_id;
  client_upload_id = d.client_upload_id;
  content_type = d.content_type;
  filename = d.filename;
  declared_total_bytes = d.total_bytes;
  received_bytes = 0;
  chunk_count = 0;
  state = is_open;
  expected_sha256 = d.sha;
  final_sha256 = none;
  created_at = now;
  updated_at = now;
  expires_at = now + l.ttl_ms;
  completed_at = none;
  chunk_size = d.chunk_size;
}

abbrev pub same_upload : Option Text → Attachment → Bool
same_upload none a = false
same_upload (some c) a = opt_text_eq a.client_upload_id (some c)

-- The keys of the table: both ids, and the client's id where there is one.
abbrev pub is_taken : (id public_id : ℕ) → Option Text → Attachment → Bool
is_taken id public_id c a = (a.id == id) || ((a.public_id == public_id) || same_upload c a)

unfoldable pub insert_row : (id public_id now : ℕ) → Desired → Tx BeginResult
insert_row id public_id now d s =
    if leb s.limits.max_open_attachments (length (keep is_open_row s.rows))
    then (s, err limit_exceeded)
    else if has (is_taken id public_id d.client_upload_id) s.rows
    then (s, err other_error)
    else let t = record s { rows = s.rows ++ (new_row s.limits id public_id now d ∷ []) } in
      (t, ok (created (by_internal id t)))

abbrev compared : Attachment → Option Mismatch → BeginResult
compared a none = duplicate a
compared a (some m) = conflicts a m

unfoldable pub begin_found : (id public_id now : ℕ) → Desired → Option Attachment → Tx BeginResult
begin_found id public_id now d none s = insert_row id public_id now d s
begin_found id public_id now d (some a) s = (s, ok (compared a (detect_begin_mismatch a d)))

abbrev pub find_upload : Option Text → List Attachment → Option Attachment
find_upload c = first (same_upload c)

-- The transaction of `begin`, with the ids that it draws.
unfoldable pub begin_tx : (id public_id now : ℕ) → Desired → Tx BeginResult
begin_tx id public_id now d s =
    begin_found id public_id now d (find_upload d.client_upload_id s.rows) s

abbrev chunk_size_of : AttachmentLimits → ℕ → Option ℕ → ℕ
chunk_size_of l total none = min l.chunk_max_bytes (max l.chunk_min_bytes total)
chunk_size_of l total (some n) =
    if n == 0
    then min l.chunk_max_bytes (max l.chunk_min_bytes total)
    else min (max n l.chunk_min_bytes) l.chunk_max_bytes

abbrev upload_id_of : Option Text → Option Text
upload_id_of none = none
upload_id_of (some t) = if length (trim t) == 0 then none else some (trim t)

abbrev is_too_long : Option Text → Bool
is_too_long none = false
is_too_long (some t) = ltb 200 (length t)

infixl 5 ◌>>=◌
abbrev ◌>>=◌ :
    {A B : Type 0}
    → Result AttachmentErrorCode A
    → (A → Result AttachmentErrorCode B)
    → Result AttachmentErrorCode B
ok a >>= f = f a
err e >>= f = err e

abbrev sized : AttachmentLimits → Desired → Result AttachmentErrorCode Desired
sized l d =
    if is_too_long d.client_upload_id
    then err bad_request
    else if ltb d.chunk_size l.chunk_min_bytes || ltb l.chunk_max_bytes d.chunk_size
    then err bad_chunk
    else ok d

-- The checks and the normal forms before the transaction, in the order of the code.
unfoldable pub desired_of : AttachmentLimits → BeginInput → Result AttachmentErrorCode Desired
desired_of l i =
    if i.total_bytes == 0
    then err bad_request
    else if ltb l.max_attachment_bytes i.total_bytes
    then err too_large
    else normalise_content_type i.content_type >>= λ content_type.
        normalise_filename i.filename l.max_filename_length >>= λ filename.
        normalise_sha256 i.sha256 >>= λ sha. sized l (record {
          content_type = content_type;
          filename = filename;
          sha = sha;
          total_bytes = i.total_bytes;
          chunk_size = chunk_size_of l i.total_bytes i.chunk_size;
          client_upload_id = upload_id_of i.client_upload_id;
        })

abbrev pub begin_desired :
    (id public_id now : ℕ)
    → Result AttachmentErrorCode Desired
    → AttachmentStore
    → AttachmentStore × Result AttachmentErrorCode BeginResult
begin_desired id public_id now (err e) s = (s, err e)
begin_desired id public_id now (ok d) s = transaction (begin_tx id public_id now d) s

-- `begin`.
unfoldable pub begin :
    AttachmentStore
    → (id public_id now : ℕ) → BeginInput
    → AttachmentStore × Result AttachmentErrorCode BeginResult
begin s id public_id now i = begin_desired id public_id now (desired_of s.limits i) s
