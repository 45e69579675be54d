-- ===== src/Attachments/Tests.antt =====
-- packages/bridge/src/core/attachments.ts: the theorems on an upload of three bytes. Sixty-four times the last digit of
-- a text's length stands for its hash.
use pi_mob.Prelude.{
  ℕ, zero, suc, ◌+◌, ◌%◌, ◌≡◌, refl, true, none, some, [], ◌∷◌, ◌++◌, every, length, arith,
}
use pi_mob.Attachments.{
  Text, Bytes, AttachmentStore, Attachment, default_limits, normalise_filename,
  normalise_content_type, normalise_sha256, is_media_type, is_parameters, is_hex, is_hex_sha256,
  is_public_id, trim,
}
use pi_mob.Cursor.{text_eq}
use pi_mob.Attachments.Begin.{BeginInput, Desired, begin, new_row, desired_of}
use pi_mob.Attachments.Append.{AppendInput, append_chunk}
use pi_mob.Attachments.Upload.{verdict, Refines}
use pi_mob.Attachments.Refinement.{append_chunk-Refines}
use pi_mob.Attachments.RoundTrip.{upload}
use pi_mob.Attachments.Reading.{Reads, begin-upload-Reads}
use pi_mob.Attachments.Filenames.{StoresSafely, normalise_filename-StoresSafely}

abbrev fill : ℕ → ℕ → Text
fill zero c = []
fill (suc n) c = c ∷ fill n c

abbrev hash : Bytes → Text
hash bs = fill 64 (48 + length bs % 10)

fill_hex : (n c : ℕ) → is_hex c ≡ true → every is_hex (fill n c) ≡ true
fill_hex zero c h = refl
fill_hex (suc n) c h = rw h (fill_hex n c h)

hash_hex : (bs : Bytes) → is_hex_sha256 (hash bs) ≡ true
hash_hex bs = fill_hex 64 (48 + length bs % 10) (ground arith)

abbrev id_text : ℕ → Text
id_text n =
    fill 8 48
    ++ (45 ∷ fill 4 48)
    ++ (45 ∷ 52 ∷ fill 3 48)
    ++ (45 ∷ 56 ∷ fill 3 48)
    ++ (45 ∷ fill 12 48)

abbrev empty : AttachmentStore
empty = record { limits = default_limits; rows = []; chunks = []; disk = λ p i x. none }

-- The media type `a/b`, with a space before it.
abbrev input : BeginInput
input = record {
  content_type = 32 ∷ 65 ∷ 47 ∷ 98 ∷ [];
  total_bytes = 3;
  chunk_size = none;
  filename = none;
  sha256 = none;
  client_upload_id = none;
}

abbrev desired : Desired
desired = record {
  content_type = 97 ∷ 47 ∷ 98 ∷ [];
  filename = none;
  sha = none;
  total_bytes = 3;
  chunk_size = 3;
  client_upload_id = none;
}

abbrev first_piece : Bytes
first_piece = 7 ∷ 8 ∷ []

abbrev last_piece : Bytes
last_piece = 9 ∷ []

begin-upload-Reads_example :
    Reads hash id_text
      (upload hash id_text
        (begin empty 1 2 100 input).0
        2
        0
        ((150, first_piece) ∷ ((300, last_piece) ∷ [])))
      2
      none
      (7 ∷ 8 ∷ 9 ∷ [])
unfolding desired_of normalise_content_type normalise_filename normalise_sha256 is_media_type
    is_parameters is_public_id trim
begin-upload-Reads_example =
    begin-upload-Reads hash id_text hash_hex empty 1 2 100 input desired 150 first_piece
      ((300, last_piece) ∷ []) none (omega arith) refl refl refl (omega arith)
      (record { no_row = refl; no_chunk = refl; no_file = λ i x. refl }) (omega arith) (omega arith)
      (omega arith) refl refl

abbrev row : Attachment
row = new_row default_limits 1 2 100 desired

abbrev started : AttachmentStore
started = record empty { rows = row ∷ [] }

abbrev chunk : AppendInput
chunk = record { payload = first_piece; offset = 0; content_sha256 = hash first_piece }

append_chunk-Refines_example :
    Refines hash id_text default_limits row 0 [] chunk 200
      (verdict hash id_text default_limits row 0 [] chunk 200)
      (append_chunk hash id_text started 2 chunk 200)
unfolding is_public_id text_eq
append_chunk-Refines_example =
    append_chunk-Refines hash id_text started row [] chunk 200 (omega arith) refl (record {
      found = refl;
      internal = refl;
      in_progress = refl;
      received = refl;
      numbered = refl;
      filed = refl;
      no_blobs = λ i. refl;
    })

-- The name `a/b`.
normalise_filename-StoresSafely_example : StoresSafely 200 (some (97 ∷ 95 ∷ 98 ∷ []))
unfolding normalise_filename trim text_eq
normalise_filename-StoresSafely_example =
    normalise_filename-StoresSafely (some (97 ∷ 47 ∷ 98 ∷ [])) 200 (some (97 ∷ 95 ∷ 98 ∷ [])) refl
