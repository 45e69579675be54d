-- ===== src/Attachments/Append.antt =====
-- packages/bridge/src/core/attachments.ts: appendChunk and complete, with the hash over the files. SHA-256, of
-- node:crypto, is a parameter, as is the text of a public id.
use pi_mob.Prelude.{
  ℕ, zero, suc, ◌+◌, ◌-◌, Bool, true, false, not, ◌&&◌, ◌||◌, Option, none, some, List, [], ◌∷◌,
  ◌++◌, map, ltb, leb, ◌==◌, if◌then◌else◌, has, keep, update, sort_by, length, Result, ok, err,
}
use pi_mob.Cursor.{text_eq}
use pi_mob.Attachments.Defs.{
  Text, Bytes, AttachmentErrorCode, not_found, expired, incomplete, released, conflict, bad_chunk,
  bad_hash, limit_exceeded, bad_request, io, other_error, AttachmentState, is_open, is_complete,
  is_aborted, is_expired, Attachment, Chunk, AttachmentLimits, part, blob, Disk, put_file,
  AttachmentStore, Tx, transaction, has_id, by_public, by_internal, is_open_or_complete,
  of_attachment,
}
use pi_mob.Attachments.Names.{is_hex_sha256, is_public_id, normalise_sha256}

pub record AppendInput : Type 0 where
  pub payload : Bytes
  pub offset : ℕ
  pub content_sha256 : Text

pub data AppendResult : Type 0 where
  accepted : Option Attachment → AppendResult
  duplicate : Attachment → (stored_offset : ℕ) → AppendResult
  conflicts : Attachment → (expected_next_offset : ℕ) → AppendResult

-- `UPDATE attachments SET ... WHERE id=?`.
abbrev pub set_row : ℕ → (Attachment → Attachment) → AttachmentStore → AttachmentStore
set_row i f s = record s { rows = update (has_id i) f s.rows }

abbrev pub expired_row : ℕ → Attachment → Attachment
expired_row now a =
    if is_open_or_complete a.state then record a { state = is_expired; updated_at = now } else a

-- `markExpiredTx`.
abbrev pub mark_expired : (id now : ℕ) → AttachmentStore → AttachmentStore
mark_expired i now s = set_row i (expired_row now) s

-- The file that the hash reads: the part where it holds bytes, else the blob.
abbrev pub prefer : Option Bytes → Option Bytes → Option Bytes
prefer (some (b ∷ bs)) other = some (b ∷ bs)
prefer (some []) other = other
prefer none other = other

abbrev pub joined : Option Bytes → Option Bytes → Option Bytes
joined (some bs) (some rest) = some (bs ++ rest)
joined _ _ = none

-- The bytes of files in order; none where one is missing, which throws.
unfoldable pub read_parts : ℕ → Disk → List ℕ → Option Bytes
read_parts p disk [] = some []
read_parts p disk (i ∷ is) = joined (prefer (disk p i part) (disk p i blob)) (read_parts p disk is)

abbrev pub chunk_rows : ℕ → AttachmentStore → List Chunk
chunk_rows i s = sort_by (λ c. c.chunk_index) (keep (of_attachment i) s.chunks)

abbrev pub nonempty_bytes : Option Bytes → Bool
nonempty_bytes (some (b ∷ bs)) = true
nonempty_bytes _ = false

abbrev pub copy_part : ℕ → ℕ → Option Bytes → Disk → Disk
copy_part p i data_read disk =
    if nonempty_bytes data_read then put_file p i blob data_read disk else disk

-- `renameBlobPartsToImmutable`: the parts below a number are copied, those that can be read and are not empty.
unfoldable pub copy_parts : ℕ → ℕ → Disk → Disk
copy_parts p zero disk = disk
copy_parts p (suc n) disk = copy_part p n (disk p n part) (copy_parts p n disk)

abbrev pub chunk_of : ℕ → (index offset : ℕ) → Bytes → Text → ℕ → Chunk
chunk_of i index offset payload sha now = record {
  attachment_id = i;
  chunk_index = index;
  byte_offset = offset;
  byte_length = length payload;
  sha256 = sha;
  received_at = now;
}

abbrev pub is_chunk : (id index : ℕ) → Chunk → Bool
is_chunk i index c = of_attachment i c && c.chunk_index == index

abbrev pub grown : ℕ → ℕ → Attachment → Attachment
grown n now a = record a {
  received_bytes = a.received_bytes + n;
  chunk_count = a.chunk_count + 1;
  updated_at = now;
}

abbrev pub completed : AttachmentLimits → ℕ → Text → Attachment → Attachment
completed l now hash a = record a {
  state = is_complete;
  completed_at = some now;
  final_sha256 = some hash;
  expires_at = now + l.completed_ttl_ms;
  updated_at = now;
}

abbrev pub differs : Option Text → Text → Bool
differs none hash = false
differs (some e) hash = not (text_eq hash e)

-- The chunk that is taken back where the final hash differs.
abbrev shrunk : ℕ → ℕ → Attachment → Attachment
shrunk n now a = record a {
  received_bytes = a.received_bytes - n;
  chunk_count = a.chunk_count - 1;
  updated_at = now;
}

abbrev pub taken_back : Attachment → ℕ → ℕ → AttachmentStore → AttachmentStore
taken_back r n now s = record (set_row r.id (shrunk n now) s) {
  chunks = keep (λ c. not (is_chunk r.id r.chunk_count c)) s.chunks;
  disk = put_file r.public_id r.chunk_count part none s.disk;
}

-- The end of an upload, given the hash over the files.
abbrev pub finish_row : Attachment → (total now : ℕ) → Text → AttachmentStore → AttachmentStore
finish_row r total now hash s =
    let t = set_row r.id (completed s.limits now hash) s in
    record t { disk = copy_parts r.public_id total t.disk }

unfoldable pub finalise : Attachment → (n now : ℕ) → Option Text → Tx AppendResult
finalise r n now none s = (s, err other_error)
finalise r n now (some hash) s =
    if differs r.expected_sha256 hash
    then (taken_back r n now s, err bad_hash)
    else let t = finish_row r (r.chunk_count + 1) now hash s in
      (t, ok (accepted (by_internal r.id t)))

module _ (sha256 : Bytes → Text) (id_text : ℕ → Text) where
  abbrev pub hashed : Option Bytes → Option Text
  hashed none = none
  hashed (some bytes) = some (sha256 bytes)

  -- `computeStreamingHashTx`.
  unfoldable pub streaming_hash : Attachment → AttachmentStore → Option Text
  streaming_hash r s =
      hashed
        (read_parts r.public_id s.disk (map (λ (c : Chunk). c.chunk_index) (chunk_rows r.id s)))

  -- The rows that a chunk adds, once its file is there.
  unfoldable pub insert_chunk : Attachment → AppendInput → ℕ → Tx AppendResult
  insert_chunk r i now s =
      if has (is_chunk r.id r.chunk_count) s.chunks
      then (s, err other_error)
      else let t = record (set_row r.id (grown (length i.payload) now) s) {
        chunks =
            s.chunks
            ++ (chunk_of r.id r.chunk_count i.offset i.payload (sha256 i.payload) now ∷ []);
      } in
        if r.received_bytes + length i.payload == r.declared_total_bytes
        then finalise r (length i.payload) now (streaming_hash r t) t
        else (t, ok (accepted (by_internal r.id t)))

  -- The file first, with the hash taken once more.
  unfoldable pub store_chunk : Attachment → AppendInput → ℕ → Tx AppendResult
  store_chunk r i now s =
      let t = record s { disk = put_file r.public_id r.chunk_count part (some i.payload) s.disk } in
      if text_eq (sha256 i.payload) i.content_sha256
      then insert_chunk r i now t
      else (record t { disk = put_file r.public_id r.chunk_count part none t.disk }, err io)

  unfoldable pub append_open : Attachment → AppendInput → ℕ → Tx AppendResult
  append_open r i now s =
      if not (i.offset == r.received_bytes)
      then (s, ok (conflicts r r.received_bytes))
      else if ltb r.declared_total_bytes (r.received_bytes + length i.payload)
      then (s, err bad_chunk)
      else if ltb s.limits.max_chunks_per_attachment (r.chunk_count + 1)
      then (s, err limit_exceeded)
      else store_chunk r i now s

  unfoldable pub append_state : AttachmentState → Attachment → AppendInput → ℕ → Tx AppendResult
  append_state is_complete r i now s =
      if (i.offset + length i.payload == r.declared_total_bytes)
        || (i.offset + length i.payload == r.received_bytes)
      then (s, ok (duplicate r (r.received_bytes - length i.payload)))
      else (s, err conflict)
  append_state is_aborted r i now s = (s, err released)
  append_state is_expired r i now s = (mark_expired r.id now s, err expired)
  append_state is_open r i now s =
      if leb r.expires_at now then (mark_expired r.id now s, err expired) else append_open r i now s

  unfoldable pub append_found : Option Attachment → AppendInput → ℕ → Tx AppendResult
  append_found none i now s = (s, err not_found)
  append_found (some r) i now s = append_state r.state r i now s

  -- What appendChunk checks before its transaction.
  abbrev pub chunk_error : AttachmentLimits → ℕ → AppendInput → Option AttachmentErrorCode
  chunk_error l id i =
      if not (is_public_id (id_text id))
      then some bad_request
      else if ltb (length i.payload) l.chunk_min_bytes || ltb l.chunk_max_bytes (length i.payload)
      then some bad_chunk
      else if not (is_hex_sha256 i.content_sha256)
      then some bad_hash
      else if not (text_eq (sha256 i.payload) i.content_sha256)
      then some bad_hash
      else none

  abbrev pub append_checked :
      Option AttachmentErrorCode
      → ℕ
      → AppendInput
      → ℕ
      → AttachmentStore
      → AttachmentStore × Result AttachmentErrorCode AppendResult
  append_checked (some e) id i now s = (s, err e)
  append_checked none id i now s = transaction (λ t. append_found (by_public id t) i now t) s

  -- `appendChunk`.
  unfoldable pub append_chunk :
      AttachmentStore
      → (id : ℕ) → AppendInput
      → (now : ℕ) → AttachmentStore × Result AttachmentErrorCode AppendResult
  append_chunk s id i now = append_checked (chunk_error s.limits id i) id i now s

  abbrev complete_expecting :
      Attachment → ℕ → Text → Result AttachmentErrorCode (Option Text) → Tx (Option Attachment)
  complete_expecting r now hash (err e) s = (s, err e)
  complete_expecting r now hash (ok e) s =
      if differs e hash
      then (s, err bad_hash)
      else let t = finish_row r r.chunk_count now hash s in (t, ok (by_internal r.id t))

  abbrev expectation : Attachment → Option Text → Result AttachmentErrorCode (Option Text)
  expectation r none = ok r.expected_sha256
  expectation r (some t) = if length t == 0 then ok r.expected_sha256 else normalise_sha256 (some t)

  unfoldable pub complete_hash : Attachment → ℕ → Option Text → Option Text → Tx (Option Attachment)
  complete_hash r now given none s = (s, err other_error)
  complete_hash r now given (some hash) s = complete_expecting r now hash (expectation r given) s

  unfoldable pub complete_state :
      AttachmentState → Attachment → ℕ → Option Text → Tx (Option Attachment)
  complete_state is_complete r now given s = (s, ok (some r))
  complete_state is_aborted r now given s = (s, err released)
  complete_state is_expired r now given s = (mark_expired r.id now s, err expired)
  complete_state is_open r now given s =
      if leb r.expires_at now
      then (mark_expired r.id now s, err expired)
      else if not (r.received_bytes == r.declared_total_bytes)
      then (s, err incomplete)
      else complete_hash r now given (streaming_hash r s) s

  unfoldable pub complete_found : Option Attachment → ℕ → Option Text → Tx (Option Attachment)
  complete_found none now given s = (s, err not_found)
  complete_found (some r) now given s = complete_state r.state r now given s

  -- `complete`, with the hash that the caller may give.
  unfoldable pub complete :
      AttachmentStore
      → (id now : ℕ) → Option Text
      → AttachmentStore × Result AttachmentErrorCode (Option Attachment)
  complete s id now given =
      if not (is_public_id (id_text id))
      then (s, err bad_request)
      else transaction (λ t. complete_found (by_public id t) now given t) s
