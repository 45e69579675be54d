-- ===== src/Jsonl/Tests.antt =====
-- packages/bridge/src/pi/jsonl.ts on small streams. Text is its own encoding here, and a text parses
-- unless it begins with a closing brace.
use pi_mob.Prelude.{
  ℕ, suc, ◌≡◌, refl, true, false, Option, none, some, List, [], ◌∷◌, arith, ◌==◌, if◌then◌else◌, ok,
  err, length,
}
use mathlib.Core.List.{flatten}
use pi_mob.Jsonl.{
  Decoder, DecodedRecord, incomplete_trailing_record, invalid_json, too_large, create, push,
  push_merged, settle, drain, round, emit, read_line, parse_text, take_line, strip_cr, finish,
  finish_first,
}
use pi_mob.Jsonl.Walk.{walk, flat, drain-walk}
use pi_mob.Jsonl.Pushes.{IsReady, returned}
use pi_mob.Jsonl.Ready.{Pushed, push-Pushed}
use pi_mob.Jsonl.Chunks.{push_all, push_all-push}
use pi_mob.Jsonl.Wire.{WireLine, records, push_all-encode}

abbrev decode : List ℕ → Option (List ℕ)
decode bs = some bs

abbrev parse : List ℕ → Option ℕ
parse [] = none
parse (u ∷ us) = if u == b'}' then none else some (suc (length us))

program : Unit {0}
unfolding create push push_merged settle drain round emit read_line parse_text take_line strip_cr
    finish finish_first
program = tt

abbrev fresh : Decoder
fresh = record { max_bytes = 4; pending = []; record_count = 0; finished = false }

fresh-create : create (some 4) ≡ fresh
unfolding program
fresh-create = refl

fresh-IsReady : IsReady fresh
fresh-IsReady = record { unfinished = refl; no_lf = tt; bounded = omega arith }

-- "ab\r\n", an empty line, and "c\n", in three chunks.
abbrev chunks : List (List ℕ)
chunks = (b'a' ∷ []) ∷ (b'b' ∷ 13 ∷ []) ∷ (10 ∷ 10 ∷ b'c' ∷ 10 ∷ b'd' ∷ []) ∷ []

abbrev first_record : DecodedRecord ℕ
first_record = record { value = 2; raw = b'a' ∷ b'b' ∷ []; record_number = 1 }

abbrev second_record : DecodedRecord ℕ
second_record = record { value = 1; raw = b'c' ∷ []; record_number = 2 }

push_whole : push decode parse fresh (flatten chunks) ≡ (
  record fresh { pending = b'd' ∷ []; record_count = 2 },
  ok (first_record ∷ second_record ∷ []),
)
unfolding program flatten
push_whole = refl

push_bad : (push decode parse fresh (b'}' ∷ 10 ∷ [])).1 ≡ err (invalid_json 1)
unfolding program
push_bad = refl

push_long : (push decode parse fresh (1 ∷ 2 ∷ 3 ∷ 4 ∷ 5 ∷ [])).1 ≡ err (too_large 4)
unfolding program
push_long = refl

finish_pending :
    (finish (record fresh { pending = b'd' ∷ [] })).1 ≡ err (incomplete_trailing_record 1)
unfolding program
finish_pending = refl

push_all-push_example :
    push_all decode parse fresh chunks ≡ returned (push decode parse fresh (flatten chunks))
push_all-push_example = push_all-push decode parse chunks fresh fresh-IsReady

push-Pushed_example :
    Pushed decode parse fresh (returned (push decode parse fresh (b'a' ∷ 10 ∷ b'b' ∷ [])))
push-Pushed_example = push-Pushed decode parse fresh (b'a' ∷ 10 ∷ b'b' ∷ []) fresh-IsReady

drain-walk_example :
    flat decode parse (drain decode parse 4 4 0 (b'a' ∷ 10 ∷ b'b' ∷ []))
    ≡ walk decode parse 4 0 [] (b'a' ∷ 10 ∷ b'b' ∷ [])
drain-walk_example = drain-walk decode parse 4 4 0 (b'a' ∷ 10 ∷ b'b' ∷ []) (omega arith)

abbrev written : List (WireLine ℕ)
written =
    record { payload = b'a' ∷ b'b' ∷ []; crlf = true; text = b'a' ∷ b'b' ∷ []; value = 2 }
    ∷ record { payload = b'c' ∷ []; crlf = false; text = b'c' ∷ []; value = 1 }
    ∷ []

push_all-encode_example :
    push_all decode parse fresh ((b'a' ∷ []) ∷ (b'b' ∷ 13 ∷ 10 ∷ b'c' ∷ []) ∷ (10 ∷ []) ∷ [])
    ≡ some (record fresh { record_count = 2 }, records decode parse 0 written)
unfolding strip_cr flatten
push_all-encode_example =
    push_all-encode decode parse fresh written
      ((b'a' ∷ []) ∷ (b'b' ∷ 13 ∷ 10 ∷ b'c' ∷ []) ∷ (10 ∷ []) ∷ []) fresh-IsReady refl
      (
        record {
          no_lf = (refl, (refl, tt));
          no_cr = refl;
          fits = omega arith;
          decodes = refl;
          non_empty = λ e. cc;
          parses = refl;
        },
        (
          record {
            no_lf = (refl, tt);
            no_cr = refl;
            fits = omega arith;
            decodes = refl;
            non_empty = λ e. cc;
            parses = refl;
          },
          tt,
        ),
      )
      refl
