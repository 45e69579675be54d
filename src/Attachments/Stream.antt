-- ===== src/Attachments/Stream.antt =====
-- packages/bridge/src/core/attachments.ts: openReadStream, consumed to its end on files that stay as they are.
use pi_mob.Prelude.{
  ℕ, zero, suc, ◌+◌, ◌*◌, min, max, not, Option, none, some, List, [], ◌∷◌, ◌++◌, if◌then◌else◌,
  take, drop, length, Result, ok, err,
}
use pi_mob.Attachments.Defs.{
  Text, Bytes, AttachmentErrorCode, not_found, incomplete, bad_request, io, AttachmentState,
  is_complete, Attachment, part, blob, Disk, AttachmentStore, by_public,
}
use pi_mob.Attachments.Names.{is_public_id}
use pi_mob.Attachments.Append.{prefer}

-- The slices of a chunk, none empty. Each takes a byte at least, so that the chunk's length is fuel enough.
unfoldable pub slices : ℕ → ℕ → Bytes → List Bytes
slices size fuel [] = []
slices size zero (b ∷ bs) = []
slices size (suc fuel) (b ∷ bs) = take size (b ∷ bs) ∷ slices size fuel (drop size (b ∷ bs))

-- What a reader was given, and the error that ended it.
pub record Delivery : Type 0 where
  pub given : List Bytes
  pub failure : Option AttachmentErrorCode

-- The indices from a number on, as many as another.
abbrev pub upto : ℕ → ℕ → List ℕ
upto k zero = []
upto k (suc n) = k ∷ upto (k + 1) n

abbrev pub after_slices : List Bytes → Delivery → Delivery
after_slices bs d = record d { given = bs ++ d.given }

-- A file that is missing or empty ends the stream.
abbrev pub deliver_chunk : ℕ → Option Bytes → Delivery → Delivery
deliver_chunk size none d = record { given = []; failure = some io }
deliver_chunk size (some []) d = record { given = []; failure = some io }
deliver_chunk size (some (b ∷ bs)) d = after_slices (slices size (length (b ∷ bs)) (b ∷ bs)) d

-- The chunks in order, each from its blob where that holds bytes, else from its part.
unfoldable pub deliver : ℕ → ℕ → Disk → List ℕ → Delivery
deliver size p disk [] = record { given = []; failure = none }
deliver size p disk (i ∷ is) =
    deliver_chunk size (prefer (disk p i blob) (disk p i part)) (deliver size p disk is)

abbrev pub slice_size : Option ℕ → ℕ
slice_size none = max (64 * 1024) (min (1024 * 1024) (8 * 1024 * 1024))
slice_size (some n) = max (64 * 1024) (min n (8 * 1024 * 1024))

unfoldable pub read_state :
    AttachmentState → Attachment → Option ℕ → Disk → Result AttachmentErrorCode Delivery
read_state is_complete r slice disk =
    ok (deliver (slice_size slice) r.public_id disk (upto 0 r.chunk_count))
read_state _ r slice disk = err incomplete

unfoldable pub read_found :
    Option Attachment → Option ℕ → Disk → Result AttachmentErrorCode Delivery
read_found none slice disk = err not_found
read_found (some r) slice disk = read_state r.state r slice disk

-- `openReadStream`.
unfoldable pub open_read_stream :
    (ℕ → Text) → AttachmentStore → (id : ℕ) → Option ℕ → Result AttachmentErrorCode Delivery
open_read_stream id_text s id slice =
    if not (is_public_id (id_text id))
    then err bad_request
    else read_found (by_public id s) slice s.disk
