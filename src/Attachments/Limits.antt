-- ===== src/Attachments/Limits.antt =====
-- packages/bridge/src/core/attachments.ts: appendChunk leaves the limits as they are.
use pi_mob.Prelude.{
  ℕ, ◌+◌, ◌≡◌, refl, ◌∙◌, Option, none, some, ◌==◌, has, length, Result, ok, err, arith, Bool-cases,
  inl, inr,
}
use pi_mob.Cursor.{text_eq}
use pi_mob.Attachments.Defs.{
  Text, Bytes, AttachmentErrorCode, is_open, is_complete, is_aborted, is_expired, AttachmentState,
  Attachment, AttachmentStore, by_public, concluded,
}
use pi_mob.Attachments.Append.{
  AppendInput, differs, chunk_error, append_chunk, append_checked, append_found, append_state,
  append_open, store_chunk, insert_chunk, finalise, is_chunk,
}

concluded-limits :
    {A : Type 0} (s : AttachmentStore) (o : AttachmentStore × Result AttachmentErrorCode A)
    → (concluded s o).0.limits ≡ o.0.limits
concluded-limits s (t, ok a) = refl
concluded-limits s (t, err e) = refl

module _ (sha256 : Bytes → Text) (id_text : ℕ → Text) where
  finalise-limits :
      (r : Attachment) (n now : ℕ) (o : Option Text) (s : AttachmentStore)
      → (finalise r n now o s).0.limits ≡ s.limits
  unfolding finalise
  finalise-limits r n now none s = refl
  finalise-limits r n now (some h) s = elim (Bool-cases (differs r.expected_sha256 h)) [
    | inl e ↦ rw e refl
    | inr e ↦ rw e refl
  ]

  insert-limits :
      (r : Attachment) (i : AppendInput) (now : ℕ) (s : AttachmentStore)
      → (insert_chunk sha256 id_text r i now s).0.limits ≡ s.limits
  unfolding insert_chunk
  insert-limits r i now s = elim (Bool-cases (has (is_chunk r.id r.chunk_count) s.chunks)) [
    | inl e ↦ rw e refl
    | inr e ↦
        rw e (elim (Bool-cases (r.received_bytes + length i.payload == r.declared_total_bytes)) [
          | inl q ↦ rw q (finalise-limits r (length i.payload) now _ _)
          | inr q ↦ rw q refl
        ])
  ]

  store-limits :
      (r : Attachment) (i : AppendInput) (now : ℕ) (s : AttachmentStore)
      → (store_chunk sha256 id_text r i now s).0.limits ≡ s.limits
  unfolding store_chunk
  store-limits r i now s = elim (Bool-cases (text_eq (sha256 i.payload) i.content_sha256)) [
    | inl e ↦ rw e (insert-limits r i now _)
    | inr e ↦ rw e refl
  ]

  state-limits :
      (st : AttachmentState) (r : Attachment) (i : AppendInput) (now : ℕ) (s : AttachmentStore)
      → (append_state sha256 id_text st r i now s).0.limits ≡ s.limits
  unfolding append_state append_open
  state-limits is_complete r i now s = ground arith
  state-limits is_aborted r i now s = refl
  state-limits is_expired r i now s = refl
  state-limits is_open r i now s = ground (arith, store-limits r i now s)

  pub append_chunk-limits :
      (s : AttachmentStore) (id : ℕ) (i : AppendInput) (now : ℕ)
      → (append_chunk sha256 id_text s id i now).0.limits ≡ s.limits
  unfolding append_chunk append_found
  append_chunk-limits s id i now = go (chunk_error sha256 id_text s.limits id i)
    where
      found : (q : Option Attachment) → (append_found sha256 id_text q i now s).0.limits ≡ s.limits
      found none = refl
      found (some r) = state-limits r.state r i now s

      go :
          (o : Option AttachmentErrorCode)
          → (append_checked sha256 id_text o id i now s).0.limits ≡ s.limits
      go (some e) = refl
      go none =
          concluded-limits s (append_found sha256 id_text (by_public id s) i now s)
          ∙ found (by_public id s)
