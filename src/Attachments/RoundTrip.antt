-- ===== src/Attachments/RoundTrip.antt =====
-- packages/bridge/src/core/attachments.ts: an upload from its first chunk to its reader.
use pi_mob.Prelude.{
  ℕ, ◌+◌, ◌≤◌, ◌<◌, ◌≡◌, refl, sym, ap, subst, ◌∙◌, true, false, none, List, [], ◌∷◌, ◌++◌, length,
  length-append, arith, ==_refl, ==_iff, All, map, append_assoc, append-nil, ==_of_ne, lt→leb_false,
  le→ltb_false,
}
use pi_mob.Cursor.Order.{text_eq_refl}
use pi_mob.Attachments.Defs.{Text, Bytes, Attachment, AttachmentLimits, AttachmentStore}
use pi_mob.Attachments.Names.{is_hex_sha256, is_public_id}
use pi_mob.Attachments.Append.{AppendInput, differs, chunk_error, append_chunk}
use pi_mob.Attachments.Upload.{
  IsUploading, IsStored, grows, completes, verdict, grown_row, completed_row, Refines,
}
use pi_mob.Attachments.Refinement.{append_chunk-Refines}
use pi_mob.Attachments.Limits.{append_chunk-limits}
use pi_mob.Attachments.Filed.{concat}

module _ (sha256 : Bytes → Text) (id_text : ℕ → Text) where
  abbrev pub next_input : ℕ → Bytes → AppendInput
  next_input offset piece = record {
    payload = piece;
    offset = offset;
    content_sha256 = sha256 piece;
  }

  -- A client that sends the pieces of a text one after the other, each at its time.
  abbrev pub upload : AttachmentStore → (id offset : ℕ) → List (ℕ × Bytes) → AttachmentStore
  upload s id offset [] = s
  upload s id offset ((now, b) ∷ ps) =
      upload (append_chunk sha256 id_text s id (next_input offset b) now).0 id (offset + length b)
        ps

  abbrev pub texts : List (ℕ × Bytes) → List Bytes
  texts = map (λ p. p.1)

  -- A piece that is not too small and not too large.
  abbrev pub IsSized : AttachmentLimits → Bytes → Type 0
  IsSized l b = (l.chunk_min_bytes ≤ length b) × (length b ≤ l.chunk_max_bytes)

  module _ (hex : (b : Bytes) → is_hex_sha256 (sha256 b) ≡ true) where
    next_input-none :
        (l : AttachmentLimits) (id offset : ℕ) (b : Bytes)
        → is_public_id (id_text id) ≡ true
        → IsSized l b
        → chunk_error sha256 id_text l id (next_input offset b) ≡ none
    next_input-none l id offset b p z =
        rw
          (
            p,
            le→ltb_false (length b) l.chunk_min_bytes z.0,
            le→ltb_false l.chunk_max_bytes (length b) z.1,
            hex b,
            text_eq_refl (sha256 b),
          )
          refl

    -- What is known of an upload and of the pieces that are to come.
    pub record IsExpected (l : AttachmentLimits) (s : AttachmentStore) (r : Attachment)
        (content : Bytes) (now : ℕ) (bs : List Bytes) : Type 0 where
      pub same : s.limits ≡ l
      pub early : now < r.expires_at
      pub room : r.chunk_count + length bs ≤ l.max_chunks_per_attachment
      pub whole : length content + length (concat bs) ≡ r.declared_total_bytes
      pub expected : differs r.expected_sha256 (sha256 (content ++ concat bs)) ≡ false

    -- The verdict on a piece after which nothing is missing, and on one after which something is.
    verdict-completes :
        (l : AttachmentLimits) (s : AttachmentStore) (r : Attachment) (content b : Bytes) (now : ℕ)
        → IsExpected l s r content now (b ∷ [])
        → verdict sha256 id_text l r (length content) content (next_input (length content) b) now
          ≡ completes
    verdict-completes l s r content b now x =
        let len : length (b ++ []) ≡ length b = ap length (append-nil b) in
        let whole = x.whole in
        let room = x.room in
        let all : length content + length b ≡ r.declared_total_bytes = omega (arith, whole, len) in
        let same_hash : differs r.expected_sha256 (sha256 (content ++ b)) ≡ false =
          subst (λ t. differs r.expected_sha256 (sha256 (content ++ t)) ≡ false) (append-nil b)
            x.expected in
        rw
          (
            lt→leb_false r.expires_at now x.early,
            ==_refl (length content),
            le→ltb_false r.declared_total_bytes (length content + length b) (omega (arith, all)),
            le→ltb_false l.max_chunks_per_attachment (r.chunk_count + 1) (omega (arith, room)),
            (==_iff (length content + length b) r.declared_total_bytes).1 all,
            same_hash,
          )
          refl

    verdict-grows :
        (l : AttachmentLimits) (s : AttachmentStore) (r : Attachment) (content b c : Bytes)
        (bs : List Bytes) (now : ℕ)
        → 1 ≤ length c
        → IsExpected l s r content now (b ∷ c ∷ bs)
        → verdict sha256 id_text l r (length content) content (next_input (length content) b) now
          ≡ grows
    verdict-grows l s r content b c bs now more x =
        let whole = x.whole in
        let room = x.room in
        let one = length-append b (c ++ concat bs) in
        let two = length-append c (concat bs) in
        rw
          (
            lt→leb_false r.expires_at now x.early,
            ==_refl (length content),
            le→ltb_false r.declared_total_bytes (length content + length b)
                (omega (arith, whole, one)),
            le→ltb_false l.max_chunks_per_attachment (r.chunk_count + 1) (omega (arith, room)),
            ==_of_ne (length content + length b) r.declared_total_bytes
                (λ e. absurd (omega (arith, whole, one, two, more, e))),
          )
          refl

    grown-IsExpected :
        (l : AttachmentLimits) (s : AttachmentStore) (r : Attachment) (content b c : Bytes)
        (bs : List Bytes) (now later : ℕ)
        → later < r.expires_at
        → IsExpected l s r content now (b ∷ c ∷ bs)
        → IsExpected l
            (append_chunk sha256 id_text s r.public_id (next_input (length content) b) now).0
            (grown_row sha256 id_text r (next_input (length content) b) now)
            (content ++ b)
            later
            (c ∷ bs)
    grown-IsExpected l s r content b c bs now later early x =
        let whole = x.whole in
        let room = x.room in
        let one = length-append b (concat (c ∷ bs)) in
        let two = length-append content b in
        record {
          same =
              append_chunk-limits sha256 id_text s r.public_id (next_input (length content) b) now
              ∙ x.same;
          early = early;
          room = omega (arith, room);
          whole = omega (arith, whole, one, two);
          expected =
              subst (λ y. differs r.expected_sha256 (sha256 y) ≡ false)
                (sym (append_assoc content b (concat (c ∷ bs)))) x.expected;
        }

    sent :
        (l : AttachmentLimits) (s : AttachmentStore) (r : Attachment) (content b : Bytes) (now : ℕ)
        → 1 ≤ l.chunk_min_bytes
        → is_public_id (id_text r.public_id) ≡ true
        → IsSized l b
        → s.limits ≡ l
        → IsUploading s r content
        → Refines sha256 id_text l r
            (length content)
            content
            (next_input (length content) b)
            now
            (verdict sha256 id_text l r
              (length content)
              content
              (next_input (length content) b)
              now)
            (append_chunk sha256 id_text s r.public_id (next_input (length content) b) now)
    sent l s r content b now m p z same u =
        let i = next_input (length content) b in
        subst
          (λ k.
            Refines sha256 id_text k r (length content) content i now
              (verdict sha256 id_text k r (length content) content i now)
              (append_chunk sha256 id_text s r.public_id i now))
          same
          (append_chunk-Refines sha256 id_text s r content i now
            (subst (λ (k : AttachmentLimits). 1 ≤ k.chunk_min_bytes) (sym same) m)
            (subst (λ k. chunk_error sha256 id_text k r.public_id i ≡ none) (sym same)
              (next_input-none l r.public_id (length content) b p z))
            u)

    pub upload-IsStored :
        (l : AttachmentLimits) (s : AttachmentStore) (r : Attachment) (content b : Bytes) (now : ℕ)
        (ps : List (ℕ × Bytes))
        → 1 ≤ l.chunk_min_bytes
        → is_public_id (id_text r.public_id) ≡ true
        → All (IsSized l) (b ∷ texts ps)
        → All (λ p. p.0 < r.expires_at) ps
        → IsExpected l s r content now (b ∷ texts ps)
        → IsUploading s r content
        → (t : Attachment) × (t.public_id ≡ r.public_id)
          × IsStored sha256
              (upload s r.public_id (length content) ((now, b) ∷ ps))
              t
              (content ++ concat (b ∷ texts ps))
    upload-IsStored l s r content b now [] m p z early x u =
        let i = next_input (length content) b in
        let done : Refines sha256 id_text l r (length content) content i now completes
            (append_chunk sha256 id_text s r.public_id i now) =
          subst
            (λ v.
              Refines sha256 id_text l r (length content) content i now v
                (append_chunk sha256 id_text s r.public_id i now))
            (verdict-completes l s r content b now x) (sent l s r content b now m p z.0 x.same u) in
        (
          completed_row sha256 id_text l r content i now,
          refl,
          subst
              (λ y.
                IsStored sha256 (append_chunk sha256 id_text s r.public_id i now).0
                  (completed_row sha256 id_text l r content i now) (content ++ y))
              (sym (append-nil b)) done.1,
        )
    upload-IsStored l s r content b now ((later, c) ∷ ps) m p z early x u =
        let i = next_input (length content) b in
        let s' : AttachmentStore = (append_chunk sha256 id_text s r.public_id i now).0 in
        let r' : Attachment = grown_row sha256 id_text r i now in
        let least = z.1.0.0 in
        let more : 1 ≤ length c = omega (arith, m, least) in
        let done : Refines sha256 id_text l r (length content) content i now grows
            (append_chunk sha256 id_text s r.public_id i now) =
          subst
            (λ v.
              Refines sha256 id_text l r (length content) content i now v
                (append_chunk sha256 id_text s r.public_id i now))
            (verdict-grows l s r content b c (texts ps) now more x)
            (sent l s r content b now m p z.0 x.same u) in
        let next =
          upload-IsStored l s' r' (content ++ b) c later ps m p z.1 early.1
            (grown-IsExpected l s r content b c (texts ps) now later early.0 x) done.1 in
        (
          next.0,
          next.1,
          subst
              (λ n.
                IsStored sha256 (upload s' r.public_id n ((later, c) ∷ ps)) next.0
                  (content ++ concat (b ∷ c ∷ texts ps)))
              (length-append content b)
              (subst
                (λ y.
                  IsStored sha256 (upload s' r.public_id (length (content ++ b)) ((later, c) ∷ ps))
                    next.0 y)
                (append_assoc content b (concat (c ∷ texts ps))) next.2),
        )
