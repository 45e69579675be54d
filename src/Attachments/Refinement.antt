-- ===== src/Attachments/Refinement.antt =====
-- packages/bridge/src/core/attachments.ts: appendChunk as a step on the text that is received.
use pi_mob.Prelude.{
  ℕ, ◌+◌, ◌≤◌, ◌≡◌, ◌≢◌, refl, sym, ap, subst, ◌∙◌, true, not, ◌||◌, Option, none, some, List, [],
  ◌∷◌, ◌++◌, ltb, leb, ◌==◌, if◌then◌else◌, length, length-append, Result, ok, arith, Bool-cases,
  inl, inr, ==_refl, ==_iff, ==_of_ne, All, All-map,
}
use pi_mob.Cursor.{text_eq}
use pi_mob.Attachments.Defs.{
  Text, Bytes, AttachmentErrorCode, bad_request, bad_chunk, bad_hash, limit_exceeded, is_open,
  Attachment, AttachmentLimits, part, blob, Disk, put_file, AttachmentStore, concluded,
}
use pi_mob.Attachments.Names.{is_hex_sha256, is_public_id}
use pi_mob.Attachments.Append.{
  AppendInput, AppendResult, accepted, differs, nonempty_bytes, chunk_error, append_chunk,
  append_found, append_state, append_open, append_checked, store_chunk, insert_chunk, finalise,
  streaming_hash,
}
use pi_mob.Attachments.Stream.{upto}
use pi_mob.Attachments.Rows.{next_numbered}
use pi_mob.Attachments.Upload.{
  IsUploading, Verdict, refuses, out_of_order, grows, completes, verdict, grown_row, Refines,
  with_part, with_chunk, with_chunk-IsUploading, streaming_hash-uploading, finish_row-IsStored,
  rolled_back-IsUploading, below_count,
}

-- A part that is written and taken away again leaves no trace below it.
abbrev two_writes : ℕ → ℕ → Option Bytes → Disk → Disk
two_writes p n bs disk = put_file p n part none (put_file p n part bs disk)

two_writes-same :
    (p n : ℕ) (bs : Option Bytes) (disk : Disk) (is : List ℕ)
    → All (λ i. i ≢ n) is
    → All (λ i. two_writes p n bs disk p i part ≡ disk p i part) is
two_writes-same p n bs disk is h =
    All-map {Q = λ i. two_writes p n bs disk p i part ≡ disk p i part}
      (λ i k. rw (==_refl p, ==_of_ne i n k) refl) is h

two_writes-blob :
    (p n i : ℕ) (bs : Option Bytes) (disk : Disk) → two_writes p n bs disk p i blob ≡ disk p i blob
two_writes-blob p n i bs disk = ground arith

module _ (sha256 : Bytes → Text) (id_text : ℕ → Text) (s : AttachmentStore) (r : Attachment)
    (content : Bytes) (u : IsUploading s r content) (i : AppendInput) (now : ℕ)
    (full : nonempty_bytes (some i.payload) ≡ true) where
  abbrev Step : Verdict → AttachmentStore × Result AttachmentErrorCode AppendResult → Type 0
  Step v o = Refines sha256 id_text s.limits r r.received_bytes content i now v o

  taken_back-IsUploading :
      IsUploading
        (record s { disk = two_writes r.public_id r.chunk_count (some i.payload) s.disk })
        r
        content
  taken_back-IsUploading =
      rolled_back-IsUploading s r content
        (two_writes r.public_id r.chunk_count (some i.payload) s.disk) u
        (two_writes-same r.public_id r.chunk_count (some i.payload) s.disk (upto 0 r.chunk_count)
          (below_count r.chunk_count))
        (λ j. two_writes-blob r.public_id r.chunk_count j (some i.payload) s.disk)

  abbrev last_verdict : Verdict
  last_verdict =
      if differs r.expected_sha256 (sha256 (content ++ i.payload))
      then refuses bad_hash
      else completes

  abbrev chunk_verdict : Verdict
  chunk_verdict =
      if not (r.received_bytes + length i.payload == r.declared_total_bytes)
      then grows
      else last_verdict

  final-Step :
      r.received_bytes + length i.payload ≡ r.declared_total_bytes
      → Step last_verdict (
          concluded s (
            finalise r
              (length i.payload)
              now
              (some (sha256 (content ++ i.payload)))
              (with_chunk sha256 id_text s r i now)))
  unfolding finalise
  final-Step all = elim (Bool-cases (differs r.expected_sha256 (sha256 (content ++ i.payload)))) [
    | inl d ↦ rw d (refl, taken_back-IsUploading)
    | inr d ↦ rw d (
        let t : AttachmentStore = with_chunk sha256 id_text s r i now in
        let done =
          finish_row-IsStored sha256 id_text t (grown_row sha256 id_text r i now)
            (content ++ i.payload) (r.chunk_count + 1) now
            (with_chunk-IsUploading sha256 id_text s r content u i now full)
            (length-append content i.payload
              ∙ ap (λ n. n + length i.payload) (sym u.received)
              ∙ all) in
        (ap (λ o. ok (accepted o)) done.0, done.1))
  ]

  insert-Step :
      Step chunk_verdict
        (concluded s (insert_chunk sha256 id_text r i now (with_part sha256 id_text s r i)))
  unfolding insert_chunk streaming_hash
  insert-Step =
      rw (next_numbered r.id r.chunk_count s.chunks u.numbered)
        (elim (Bool-cases (r.received_bytes + length i.payload == r.declared_total_bytes)) [
          | inl e ↦ rw e (
              let t : AttachmentStore = with_chunk sha256 id_text s r i now in
              let hash =
                streaming_hash-uploading sha256 id_text t (grown_row sha256 id_text r i now)
                  (content ++ i.payload)
                  (with_chunk-IsUploading sha256 id_text s r content u i now full) in
              subst (λ o. Step last_verdict (concluded s (finalise r (length i.payload) now o t)))
                (sym hash)
                (final-Step
                  ((==_iff (r.received_bytes + length i.payload) r.declared_total_bytes).0 e)))
          | inr e ↦ rw e (
              let v = with_chunk-IsUploading sha256 id_text s r content u i now full in
              (ap (λ o. ok (accepted o)) v.internal, v))
        ])

  abbrev open_verdict : Verdict
  open_verdict =
      if not (i.offset == r.received_bytes)
      then out_of_order
      else if ltb r.declared_total_bytes (r.received_bytes + length i.payload)
      then refuses bad_chunk
      else if ltb s.limits.max_chunks_per_attachment (r.chunk_count + 1)
      then refuses limit_exceeded
      else chunk_verdict

  open-Step :
      text_eq (sha256 i.payload) i.content_sha256 ≡ true
      → Step open_verdict (concluded s (append_open sha256 id_text r i now s))
  unfolding append_open store_chunk
  open-Step e = elim (Bool-cases (i.offset == r.received_bytes)) [
    | inr o ↦ rw o (refl, u)
    | inl o ↦ elim (Bool-cases (ltb r.declared_total_bytes (r.received_bytes + length i.payload))) [
      | inl b ↦ rw (o, b) (refl, u)
      | inr b ↦ elim (Bool-cases (ltb s.limits.max_chunks_per_attachment (r.chunk_count + 1))) [
        | inl c ↦ rw (o, b, c) (refl, u)
        | inr c ↦ rw (o, b, c, e) insert-Step
      ]
    ]
  ]

  state-Step :
      text_eq (sha256 i.payload) i.content_sha256 ≡ true
      → Step
          (verdict sha256 id_text s.limits r r.received_bytes content i now)
          (concluded s (append_state sha256 id_text is_open r i now s))
  unfolding append_state
  state-Step e = elim (Bool-cases (leb r.expires_at now)) [
    | inl l ↦ rw l (refl, u)
    | inr l ↦ rw l (open-Step e)
  ]

-- What a chunk passes that the first checks let through.
record IsChecked (sha256 : Bytes → Text) (id_text : ℕ → Text) (l : AttachmentLimits) (id : ℕ)
    (i : AppendInput) : Type 0 where
  same_hash : text_eq (sha256 i.payload) i.content_sha256 ≡ true
  at_least : l.chunk_min_bytes ≤ length i.payload

chunk_error-IsChecked :
    (sha256 : Bytes → Text) (id_text : ℕ → Text) (l : AttachmentLimits) (id : ℕ) (i : AppendInput)
    → chunk_error sha256 id_text l id i ≡ none
    → IsChecked sha256 id_text l id i
chunk_error-IsChecked sha256 id_text l id i h = elim (Bool-cases (is_public_id (id_text id))) [
  | inr p ↦ let bad : some bad_request ≡ none = rw p at h in cc
  | inl p ↦
      elim (Bool-cases
        (ltb (length i.payload) l.chunk_min_bytes || ltb l.chunk_max_bytes (length i.payload))) [
          | inl q ↦ let bad : some bad_chunk ≡ none = rw (p, q) at h in cc
          | inr q ↦ elim (Bool-cases (is_hex_sha256 i.content_sha256)) [
            | inr x ↦ let bad : some bad_hash ≡ none = rw (p, q, x) at h in cc
            | inl x ↦ elim (Bool-cases (text_eq (sha256 i.payload) i.content_sha256)) [
              | inr y ↦ let bad : some bad_hash ≡ none = rw (p, q, x, y) at h in cc
              | inl y ↦ record { same_hash = y; at_least = ground (arith, q) }
            ]
          ]
        ]
]

full_of : (bs : Bytes) → 1 ≤ length bs → nonempty_bytes (some bs) ≡ true
full_of [] h = absurd (omega arith)
full_of (b ∷ bs) h = refl

-- On an upload in progress, a chunk that passes the first checks of its id, its size and its hash has the
-- effect that its verdict tells, where chunks are not empty. It is refused once the upload has expired, where it goes beyond the declared
-- size or the number of chunks, and where it is the last and the whole text has not the expected hash; then, and
-- where it is not the next one, the upload stays as it was, an expired one also in progress. Else the text
-- grows by the payload, and with the last chunk it is complete, under the hash of the whole text.
pub append_chunk-Refines :
    (sha256 : Bytes → Text) (id_text : ℕ → Text) (s : AttachmentStore) (r : Attachment)
    (content : Bytes) (i : AppendInput) (now : ℕ)
    → 1 ≤ s.limits.chunk_min_bytes
    → chunk_error sha256 id_text s.limits r.public_id i ≡ none
    → IsUploading s r content
    → Refines sha256 id_text s.limits r
        (length content)
        content
        i
        now
        (verdict sha256 id_text s.limits r (length content) content i now)
        (append_chunk sha256 id_text s r.public_id i now)
unfolding append_chunk append_found
append_chunk-Refines sha256 id_text s r content i now m e u =
    let c = chunk_error-IsChecked sha256 id_text s.limits r.public_id i e in
    let same : append_chunk sha256 id_text s r.public_id i now
        ≡ concluded s (append_state sha256 id_text is_open r i now s) =
      ap (λ o. append_checked sha256 id_text o r.public_id i now s) e
      ∙ ap (λ o. concluded s (append_found sha256 id_text o i now s)) u.found
      ∙ ap (λ st. concluded s (append_state sha256 id_text st r i now s)) u.in_progress in
    subst
      (Refines sha256 id_text s.limits r (length content) content i now
        (verdict sha256 id_text s.limits r (length content) content i now))
      (sym same)
      (subst
        (λ n.
          Refines sha256 id_text s.limits r n content i now
            (verdict sha256 id_text s.limits r n content i now)
            (concluded s (append_state sha256 id_text is_open r i now s)))
        u.received
        (state-Step sha256 id_text s r content u i now
          (full_of i.payload (omega (arith, c.at_least, m))) c.same_hash))
