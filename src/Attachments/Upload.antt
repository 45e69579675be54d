-- ===== src/Attachments/Upload.antt =====
-- packages/bridge/src/core/attachments.ts: an upload as the text that it has received. The rows and the files of the
-- store implement this view, and appendChunk a step on it.
use pi_mob.Prelude.{
  ℕ, ◌+◌, ◌≡◌, refl, sym, ap, subst, ◌∙◌, true, not, none, some, List, [], ◌∷◌, ◌++◌, ltb, leb,
  ◌==◌, if◌then◌else◌, length, length-append, Result, ok, err, All, ◌≢◌, inl, first-update_found,
  ==_refl,
}
use pi_mob.Attachments.Defs.{
  Text, Bytes, AttachmentErrorCode, expired, bad_chunk, bad_hash, limit_exceeded, is_open,
  is_complete, Attachment, AttachmentLimits, Disk, part, blob, put_file, AttachmentStore, by_public,
  by_internal, has_public, has_id,
}
use pi_mob.Attachments.Append.{
  AppendInput, AppendResult, accepted, conflicts, grown, completed, differs, nonempty_bytes,
  copy_parts, set_row, streaming_hash, hashed, chunk_of, finish_row, read_parts,
}
use pi_mob.Attachments.Stream.{upto}
use pi_mob.Attachments.Filed.{
  Filed, BlobAgrees, Filed-same, Filed-snoc, upto-snoc, upto-below, put_part-same, put_part-found,
  put_part-blob, copy_parts-part, copy_parts-BlobAgrees, read_parts-Filed,
}
use pi_mob.Attachments.Rows.{zero-add, IsNumbered, sort_numbered, snoc-IsNumbered}

-- An upload in progress, with its row and what it has received.
pub record IsUploading (s : AttachmentStore) (r : Attachment) (content : Bytes) : Type 0 where
  pub found : by_public r.public_id s ≡ some r
  pub internal : by_internal r.id s ≡ some r
  pub in_progress : r.state ≡ is_open
  pub received : r.received_bytes ≡ length content
  pub numbered : IsNumbered r.id r.chunk_count s.chunks
  pub filed : Filed r.public_id s.disk (upto 0 r.chunk_count) content
  pub no_blobs : (i : ℕ) → s.disk r.public_id i blob ≡ none

-- An upload that is complete, with its row and its content.
pub record IsStored (sha256 : Bytes → Text) (s : AttachmentStore) (r : Attachment) (content : Bytes)
    : Type 0 where
  pub found : by_public r.public_id s ≡ some r
  pub at_end : r.state ≡ is_complete
  pub received : r.received_bytes ≡ length content
  pub declared : r.declared_total_bytes ≡ length content
  pub hash : r.final_sha256 ≡ some (sha256 content)
  pub filed : Filed r.public_id s.disk (upto 0 r.chunk_count) content
  pub agree : (i : ℕ) → BlobAgrees r.public_id s.disk i

All-each : {P : ℕ → Type 0} → ((i : ℕ) → P i) → (is : List ℕ) → All P is
All-each h [] = tt
All-each h (i ∷ is) = (h i, All-each h is)

pub below_count : (n : ℕ) → All (λ j. j ≢ n) (upto 0 n)
below_count n = subst (λ m. All (λ j. j ≢ m) (upto 0 n)) (zero-add n) (upto-below 0 n)

-- The tables that are rolled back, and a disk that has the same parts and no blobs.
pub rolled_back-IsUploading :
    (s : AttachmentStore) (r : Attachment) (content : Bytes) (disk : Disk)
    → IsUploading s r content
    → All (λ i. disk r.public_id i part ≡ s.disk r.public_id i part) (upto 0 r.chunk_count)
    → ((i : ℕ) → disk r.public_id i blob ≡ s.disk r.public_id i blob)
    → IsUploading (record s { disk = disk }) r content
rolled_back-IsUploading s r content disk u same blobs = record {
  found = u.found;
  internal = u.internal;
  in_progress = u.in_progress;
  received = u.received;
  numbered = u.numbered;
  filed = Filed-same r.public_id s.disk disk (upto 0 r.chunk_count) content same u.filed;
  no_blobs = λ i. blobs i ∙ u.no_blobs i;
}

-- What a chunk does to an upload.
pub data Verdict : Type 0 where
  refuses : AttachmentErrorCode → Verdict
  out_of_order grows completes : Verdict

module _ (sha256 : Bytes → Text) (id_text : ℕ → Text) where
  -- The verdict on a chunk, where so many bytes are received.
  abbrev pub verdict :
      AttachmentLimits → Attachment → (received : ℕ) → Bytes → AppendInput → ℕ → Verdict
  verdict l r received content i now =
      if leb r.expires_at now
      then refuses expired
      else if not (i.offset == received)
      then out_of_order
      else if ltb r.declared_total_bytes (received + length i.payload)
      then refuses bad_chunk
      else if ltb l.max_chunks_per_attachment (r.chunk_count + 1)
      then refuses limit_exceeded
      else if not (received + length i.payload == r.declared_total_bytes)
      then grows
      else if differs r.expected_sha256 (sha256 (content ++ i.payload))
      then refuses bad_hash
      else completes

  abbrev pub grown_row : Attachment → AppendInput → ℕ → Attachment
  grown_row r i now = grown (length i.payload) now r

  abbrev pub completed_row : AttachmentLimits → Attachment → Bytes → AppendInput → ℕ → Attachment
  completed_row l r content i now =
      completed l now (sha256 (content ++ i.payload)) (grown_row r i now)

  -- What a call leaves and returns, by the verdict on its chunk.
  abbrev pub Refines :
      AttachmentLimits
      → Attachment
      → (received : ℕ) → Bytes
      → AppendInput
      → ℕ
      → Verdict
      → AttachmentStore × Result AttachmentErrorCode AppendResult
      → Type 0
  Refines l r received content i now (refuses e) o = (o.1 ≡ err e) × IsUploading o.0 r content
  Refines l r received content i now out_of_order o =
      (o.1 ≡ ok (conflicts r received)) × IsUploading o.0 r content
  Refines l r received content i now grows o =
      (o.1 ≡ ok (accepted (some (grown_row r i now))))
      × IsUploading o.0 (grown_row r i now) (content ++ i.payload)
  Refines l r received content i now completes o =
      (o.1 ≡ ok (accepted (some (completed_row l r content i now))))
      × IsStored sha256 o.0 (completed_row l r content i now) (content ++ i.payload)

  -- The store with the chunk's file, and with its rows.
  abbrev pub with_part : AttachmentStore → Attachment → AppendInput → AttachmentStore
  with_part s r i = record s {
    disk = put_file r.public_id r.chunk_count part (some i.payload) s.disk;
  }

  abbrev pub with_chunk : AttachmentStore → Attachment → AppendInput → ℕ → AttachmentStore
  with_chunk s r i now = record (set_row r.id (grown (length i.payload) now) (with_part s r i)) {
    chunks =
        s.chunks ++ (chunk_of r.id r.chunk_count i.offset i.payload (sha256 i.payload) now ∷ []);
  }

  module _ (s : AttachmentStore) (r : Attachment) (content : Bytes) (u : IsUploading s r content)
      (i : AppendInput) (now : ℕ) (full : nonempty_bytes (some i.payload) ≡ true) where
    pub with_chunk-IsUploading :
        IsUploading (with_chunk s r i now) (grown_row r i now) (content ++ i.payload)
    with_chunk-IsUploading = record {
      found =
          first-update_found (has_public r.public_id) (has_id r.id) (grown (length i.payload) now)
            s.rows r u.found (==_refl r.id) (λ x. refl);
      internal =
          first-update_found (has_id r.id) (has_id r.id) (grown (length i.payload) now) s.rows r
            u.internal (==_refl r.id) (λ x. refl);
      in_progress = u.in_progress;
      received = ap (λ n. n + length i.payload) u.received ∙ sym (length-append content i.payload);
      numbered =
          snoc-IsNumbered r.id r.chunk_count s.chunks
            (chunk_of r.id r.chunk_count i.offset i.payload (sha256 i.payload) now) u.numbered
            (==_refl r.id) refl;
      filed =
          subst
            (λ is.
              Filed r.public_id (put_file r.public_id r.chunk_count part (some i.payload) s.disk) is
                (content ++ i.payload))
            (sym (
              upto-snoc 0 r.chunk_count
              ∙ ap (λ m. upto 0 r.chunk_count ++ (m ∷ [])) (zero-add r.chunk_count)))
            (Filed-snoc r.public_id
              (put_file r.public_id r.chunk_count part (some i.payload) s.disk)
              (upto 0 r.chunk_count) content r.chunk_count i.payload
              (Filed-same r.public_id s.disk
                (put_file r.public_id r.chunk_count part (some i.payload) s.disk)
                (upto 0 r.chunk_count) content
                (put_part-same r.public_id r.chunk_count (some i.payload) s.disk
                  (upto 0 r.chunk_count) (below_count r.chunk_count))
                u.filed)
              (put_part-found r.public_id r.chunk_count (some i.payload) s.disk) full);
      no_blobs =
          λ j. put_part-blob r.public_id r.chunk_count j (some i.payload) s.disk ∙ u.no_blobs j;
    }

  pub streaming_hash-uploading :
      (s : AttachmentStore) (r : Attachment) (content : Bytes)
      → IsUploading s r content
      → streaming_hash sha256 id_text r s ≡ some (sha256 content)
  unfolding streaming_hash
  streaming_hash-uploading s r content u = ap (hashed sha256 id_text) (
      ap (read_parts r.public_id s.disk) (sort_numbered r.id r.chunk_count s.chunks u.numbered)
      ∙ read_parts-Filed r.public_id s.disk (upto 0 r.chunk_count) content u.filed)

  -- The end of an upload that has received what it declared.
  pub finish_row-IsStored :
      (s : AttachmentStore) (r : Attachment) (content : Bytes) (total now : ℕ)
      → IsUploading s r content
      → length content ≡ r.declared_total_bytes
      → (by_internal r.id (finish_row r total now (sha256 content) s)
          ≡ some (completed s.limits now (sha256 content) r))
        × IsStored sha256
            (finish_row r total now (sha256 content) s)
            (completed s.limits now (sha256 content) r)
            content
  finish_row-IsStored s r content total now u all =
      let f = completed s.limits now (sha256 content) in
      (
        first-update_found (has_id r.id) (has_id r.id) f s.rows r u.internal (==_refl r.id)
            (λ x. refl),
        record {
          found =
              first-update_found (has_public r.public_id) (has_id r.id) f s.rows r u.found
                (==_refl r.id) (λ x. refl);
          at_end = refl;
          received = u.received;
          declared = sym all;
          hash = refl;
          filed =
              Filed-same r.public_id s.disk (copy_parts r.public_id total s.disk)
                (upto 0 r.chunk_count) content
                (All-each (λ i. copy_parts-part r.public_id total i s.disk) (upto 0 r.chunk_count))
                u.filed;
          agree = λ i. copy_parts-BlobAgrees r.public_id total i s.disk (inl (u.no_blobs i));
        },
      )
