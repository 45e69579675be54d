-- ===== src/Jsonl.antt =====
-- packages/bridge/src/pi/jsonl.ts: class JsonlDecoder, with its errors as values.
-- Bytes are numbers. `TextDecoder.decode` and `JSON.parse` are the parameters `decode` (into UTF-16
-- units) and `parse`, which may fail.
pub mod Walk
pub mod Pushes
pub mod Ready
pub mod Chunks
pub mod Wire
mod Tests
use pi_mob.Prelude.{
  ℕ, zero, suc, ◌+◌, Bool, true, false, Option, none, some, List, [], ◌∷◌, ◌++◌, ltb, ◌==◌,
  if◌then◌else◌, length, Result, ok, err,
}

pub data JsonlError : Type 0 where
  too_large : ℕ → JsonlError
  incomplete_trailing_record : ℕ → JsonlError
  invalid_utf8 : ℕ → JsonlError
  invalid_json : ℕ → JsonlError
  decoder_finished : JsonlError

pub record DecodedRecord (V : Type 0) : Type 0 where
  pub value : V
  pub raw : List ℕ
  pub record_number : ℕ

pub record Decoder : Type 0 where
  pub max_bytes : ℕ
  pub pending : List ℕ
  pub record_count : ℕ
  pub finished : Bool

abbrev pub default_max_record_bytes : ℕ
default_max_record_bytes = 1048576

abbrev pub lf : ℕ
lf = 10

abbrev pub cr : ℕ
cr = 13

-- The constructor, given the option `maxRecordBytes`.
unfoldable pub create : Option ℕ → Decoder
create none = record {
  max_bytes = default_max_record_bytes;
  pending = [];
  record_count = 0;
  finished = false;
}
create (some n) = record { max_bytes = n; pending = []; record_count = 0; finished = false }

abbrev extend_line : ℕ → Option (List ℕ × List ℕ) → Option (List ℕ × List ℕ)
extend_line b none = none
extend_line b (some (line, rest)) = some (b ∷ line, rest)

-- `indexOf(LF)` with the two `subarray` calls: the bytes before the first LF, and those after it.
take_line : List ℕ → Option (List ℕ × List ℕ)
take_line [] = none
take_line (b ∷ bs) = if b == lf then some ([], bs) else extend_line b (take_line bs)

-- Exactly one trailing CR goes; any other CR is part of the payload.
pub strip_cr : List ℕ → List ℕ
strip_cr [] = []
strip_cr (b ∷ []) = if b == cr then [] else b ∷ []
strip_cr (b ∷ c ∷ bs) = b ∷ strip_cr (c ∷ bs)

-- What a push leaves in the decoder, with what it returns or throws.
abbrev pub Outcome : Type 0 → Type 0
Outcome A = Decoder × Result JsonlError A

module _ {V : Type 0} (decode : List ℕ → Option (List ℕ)) (parse : List ℕ → Option V) where
  -- `JSON.parse` of a record's text, where the text is not empty.
  pub parse_text : ℕ → List ℕ → Result JsonlError (Option (DecodedRecord V))
  parse_text count [] = ok none
  parse_text count (u ∷ us) = elim (parse (u ∷ us)) [
    | none ↦ err (invalid_json (count + 1))
    | some v ↦ ok (some (record { value = v; raw = u ∷ us; record_number = count + 1 }))
  ]

  -- The body of the `while` loop for the bytes before one LF; `none` is an empty line.
  pub read_line : ℕ → ℕ → List ℕ → Result JsonlError (Option (DecodedRecord V))
  read_line max count line =
      if ltb max (length line) then err (too_large max) else elim (decode (strip_cr line)) [
        | none ↦ err (invalid_utf8 (count + 1))
        | some text ↦ parse_text count text
      ]

  -- The number of records so far, and the records with the bytes left, or the error.
  abbrev pub Drained : Type 0
  Drained = ℕ × Result JsonlError (List (DecodedRecord V) × List ℕ)

  abbrev pub prepend : DecodedRecord V → Drained → Drained
  prepend r (count, ok (rs, rest)) = (count, ok (r ∷ rs, rest))
  prepend r (count, err e) = (count, err e)

  -- What a round does with the result of `read_line`; `again` runs the rounds that remain.
  emit :
      (ℕ → List ℕ → Drained) → ℕ → List ℕ → Result JsonlError (Option (DecodedRecord V)) → Drained
  emit again count rest (err e) = (count, err e)
  emit again count rest (ok none) = again count rest
  emit again count rest (ok (some r)) = prepend r (again (suc count) rest)

  round : (ℕ → List ℕ → Drained) → ℕ → ℕ → List ℕ → Option (List ℕ × List ℕ) → Drained
  round again max count buf none = (count, ok ([], buf))
  round again max count buf (some (line, rest)) = emit again count rest (read_line max count line)

  -- `while (cursor < len)`: each round reads the bytes up to the next LF. The fuel is more than the
  -- bytes, so it never runs out.
  pub drain : ℕ → ℕ → ℕ → List ℕ → Drained
  drain zero max count buf = (count, ok ([], buf))
  drain (suc fuel) max count buf = round (drain fuel max) max count buf (take_line buf)

  -- The end of `push`: the bytes after the last LF stay pending, up to the limit. After an error
  -- in the loop the whole merged buffer stays.
  settle : Decoder → List ℕ → Drained → Outcome (List (DecodedRecord V))
  settle d merged (count, err e) = (record d { pending = merged; record_count = count }, err e)
  settle d merged (count, ok (rs, rest)) = (
    record d { pending = rest; record_count = count },
    (if ltb d.max_bytes (length rest) then err (too_large d.max_bytes) else ok rs),
  )

  push_merged : Decoder → List ℕ → Outcome (List (DecodedRecord V))
  push_merged d merged =
      settle d merged (drain (suc (length merged)) d.max_bytes d.record_count merged)

  pub push : Decoder → List ℕ → Outcome (List (DecodedRecord V))
  push d [] = if d.finished then (d, err decoder_finished) else (d, ok [])
  push d (b ∷ bs) =
      if d.finished then (d, err decoder_finished) else push_merged d (d.pending ++ (b ∷ bs))

-- The errors of `finish`, in the order of its tests.
finish_first : Decoder → List ℕ → Outcome (Unit {0})
finish_first d [] = (record d { finished = true }, ok tt)
finish_first d (b ∷ bs) =
    if ltb d.max_bytes (suc (length bs))
    then (record d { finished = true }, err (too_large d.max_bytes))
    else (
      record d { pending = []; finished = true },
      err (incomplete_trailing_record (suc (length bs))),
    )

pub finish : Decoder → Outcome (Unit {0})
finish d = if d.finished then (d, ok tt) else finish_first d d.pending

pub reset : Decoder → Decoder
reset d = record d { pending = []; finished = false }

pub pending_byte_length : Decoder → ℕ
pending_byte_length d = length d.pending
