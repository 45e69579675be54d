-- ===== src/Attachments/Reading.antt =====
-- packages/bridge/src/core/attachments.ts: begin, the chunks of an upload, and its reader.
use pi_mob.Prelude.{
  ℕ, ◌+◌, ◌≤◌, ◌<◌, ◌≡◌, refl, sym, ap, subst, ◌∙◌, true, false, ◌||◌, Option, none, some, List, [],
  ◌∷◌, ◌++◌, map, ◌==◌, has, keep, length, ok, arith, ==_refl, All, lt→leb_false, is_some,
  first-has, first-snoc, has-or,
}
use pi_mob.Attachments.Defs.{
  Text, Bytes, Attachment, AttachmentStore, Suffix, blob, has_public, has_id, concluded,
  of_attachment,
}
use pi_mob.Attachments.Names.{is_hex_sha256, is_public_id}
use pi_mob.Attachments.Begin.{
  BeginInput, Desired, desired_of, begin, begin_tx, begin_found, begin_desired, insert_row, new_row,
  is_taken, find_upload, is_open_row, same_upload,
}
use pi_mob.Attachments.Append.{differs}
use pi_mob.Attachments.Stream.{
  Delivery, deliver, upto, slice_size, open_read_stream, read_found, read_state,
}
use pi_mob.Attachments.Rows.{index}
use pi_mob.Attachments.Upload.{IsUploading, IsStored}
use pi_mob.Attachments.Filed.{concat, deliver-Filed}
use pi_mob.Attachments.RoundTrip.{upload, texts, IsSized, upload-IsStored}

slice_size_pos : (slice : Option ℕ) → 0 < slice_size slice
slice_size_pos none = omega arith
slice_size_pos (some n) = ground arith

module _ (sha256 : Bytes → Text) (id_text : ℕ → Text) where
  -- A reader of an upload that is complete.
  abbrev pub Reads : AttachmentStore → ℕ → Option ℕ → Bytes → Type 0
  Reads s id slice content =
      (d : Delivery) × (open_read_stream id_text s id slice ≡ ok d)
      × (concat d.given ≡ content)
      × (d.failure ≡ none)

  stored-Reads :
      (s : AttachmentStore) (r : Attachment) (content : Bytes) (slice : Option ℕ)
      → is_public_id (id_text r.public_id) ≡ true
      → IsStored sha256 s r content
      → Reads s r.public_id slice content
  unfolding open_read_stream read_found read_state
  stored-Reads s r content slice p t =
      let got =
        deliver-Filed (slice_size slice) r.public_id s.disk (upto 0 r.chunk_count) content
          (slice_size_pos slice) t.agree t.filed in
      (
        deliver (slice_size slice) r.public_id s.disk (upto 0 r.chunk_count),
        rw p (
            ap (λ o. read_found o slice s.disk) t.found
            ∙ ap (λ st. read_state st r slice s.disk) t.at_end),
        got.0,
        got.1,
      )

  -- Nothing of an id is in the store.
  pub record IsFresh (s : AttachmentStore) (id public_id : ℕ) : Type 0 where
    pub no_row : has (λ a. (a.id == id) || (a.public_id == public_id)) s.rows ≡ false
    pub no_chunk : keep (of_attachment id) s.chunks ≡ []
    pub no_file : (i : ℕ) (x : Suffix) → s.disk public_id i x ≡ none

  has_id_none :
      (s : AttachmentStore) (id public_id : ℕ)
      → IsFresh s id public_id
      → has (has_id id) s.rows ≡ false
  has_id_none s id public_id x =
      ground (arith, has-or (has_id id) (has_public public_id) s.rows, x.no_row)

  has_public_none :
      (s : AttachmentStore) (id public_id : ℕ)
      → IsFresh s id public_id
      → has (has_public public_id) s.rows ≡ false
  has_public_none s id public_id x =
      ground (arith, has-or (has_id id) (has_public public_id) s.rows, x.no_row)

  taken-IsFresh :
      (s : AttachmentStore) (id public_id : ℕ) (c : Option Text)
      → find_upload c s.rows ≡ none
      → IsFresh s id public_id
      → has (is_taken id public_id c) s.rows ≡ false
  taken-IsFresh s id public_id c f x =
      let none_same : has (same_upload c) s.rows ≡ false =
        sym (first-has (same_upload c) s.rows) ∙ ap is_some f in
      has-or (has_id id) (λ a. has_public public_id a || same_upload c a) s.rows
      ∙ rw (has_id_none s id public_id x) (
          has-or (has_public public_id) (same_upload c) s.rows
          ∙ rw (has_public_none s id public_id x, none_same) refl)

  -- The store after `begin`, where it makes a row.
  abbrev begun : AttachmentStore → (id public_id now : ℕ) → Desired → AttachmentStore
  begun s id public_id now d = record s {
    rows = s.rows ++ (new_row s.limits id public_id now d ∷ []);
  }

  begin_created :
      (s : AttachmentStore) (id public_id now : ℕ) (i : BeginInput) (d : Desired)
      → desired_of s.limits i ≡ ok d
      → find_upload d.client_upload_id s.rows ≡ none
      → length (keep is_open_row s.rows) < s.limits.max_open_attachments
      → IsFresh s id public_id
      → (begin s id public_id now i).0 ≡ begun s id public_id now d
  unfolding begin begin_tx begin_found insert_row
  begin_created s id public_id now i d e f o x =
      let none_taken : has (is_taken id public_id d.client_upload_id) s.rows ≡ false =
        taken-IsFresh s id public_id d.client_upload_id f x in
      ap (λ q. (begin_desired id public_id now q s).0) e
      ∙ ap (λ q. (concluded s (begin_found id public_id now d q s)).0) f
      ∙ simp (
        lt→leb_false s.limits.max_open_attachments (length (keep is_open_row s.rows)) o,
        none_taken,
      )

  begun-IsUploading :
      (s : AttachmentStore) (id public_id now : ℕ) (d : Desired)
      → IsFresh s id public_id
      → IsUploading (begun s id public_id now d) (new_row s.limits id public_id now d) []
  begun-IsUploading s id public_id now d x =
      let none_id = has_id_none s id public_id x in
      let none_public = has_public_none s id public_id x in
      record {
        found =
            first-snoc (has_public public_id) s.rows (new_row s.limits id public_id now d)
              none_public (==_refl public_id);
        internal =
            first-snoc (has_id id) s.rows (new_row s.limits id public_id now d) none_id
              (==_refl id);
        in_progress = refl;
        received = refl;
        numbered = ap (map index) x.no_chunk;
        filed = refl;
        no_blobs = λ j. x.no_file j blob;
      }

  -- A new upload on fresh ids, where a chunk has one byte at least, fewer uploads are open than the
  -- limit and hashes have SHA-256's form, whose pieces are sent in order, each at a time before the
  -- upload expires: each of a size that the limits admit, not too many, of the declared size between
  -- them and with the declared hash, if there is one. Its reader is then given the pieces' text,
  -- whatever the slices, and no error.
  pub begin-upload-Reads :
      ((b : Bytes) → is_hex_sha256 (sha256 b) ≡ true)
      → (s : AttachmentStore) (id public_id begun_at : ℕ) (i : BeginInput) (d : Desired) (now : ℕ)
        (b : Bytes) (ps : List (ℕ × Bytes)) (slice : Option ℕ)
      → 1 ≤ s.limits.chunk_min_bytes
      → is_public_id (id_text public_id) ≡ true
      → desired_of s.limits i ≡ ok d
      → find_upload d.client_upload_id s.rows ≡ none
      → length (keep is_open_row s.rows) < s.limits.max_open_attachments
      → IsFresh s id public_id
      → All (IsSized sha256 id_text s.limits) (b ∷ texts sha256 id_text ps)
      → All (λ p. p.0 < begun_at + s.limits.ttl_ms) ((now, b) ∷ ps)
      → length (b ∷ texts sha256 id_text ps) ≤ s.limits.max_chunks_per_attachment
      → length (concat (b ∷ texts sha256 id_text ps)) ≡ d.total_bytes
      → differs d.sha (sha256 (concat (b ∷ texts sha256 id_text ps))) ≡ false
      → Reads
          (upload sha256 id_text (begin s id public_id begun_at i).0 public_id 0 ((now, b) ∷ ps))
          public_id
          slice
          (concat (b ∷ texts sha256 id_text ps))
  begin-upload-Reads hex s id public_id begun_at i d now b ps slice m p e f o x z early c w h =
      let r = new_row s.limits id public_id begun_at d in
      let t = begun s id public_id begun_at d in
      let text = concat (b ∷ texts sha256 id_text ps) in
      let (row, same, stored) =
        upload-IsStored sha256 id_text hex s.limits t r [] b now ps m p z early.1
          (record {
            same = refl;
            early = early.0;
            room = omega (arith, c);
            whole = omega (arith, w);
            expected = h;
          })
          (begun-IsUploading s id public_id begun_at d x) in
      subst (λ q. Reads (upload sha256 id_text q public_id 0 ((now, b) ∷ ps)) public_id slice text)
        (sym (begin_created s id public_id begun_at i d e f o x))
        (subst (λ q. Reads (upload sha256 id_text t public_id 0 ((now, b) ∷ ps)) q slice text) same
          (stored-Reads (upload sha256 id_text t public_id 0 ((now, b) ∷ ps)) row text slice
            (subst (λ q. is_public_id (id_text q) ≡ true) (sym same) p) stored))
