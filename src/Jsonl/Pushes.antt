-- ===== src/Jsonl/Pushes.antt =====
-- packages/bridge/src/pi/jsonl.ts: a push of the decoder as a walk of the byte machine.
use pi_mob.Prelude.{
  ℕ, suc, ◌≤◌, ◌<◌, ◌≡◌, refl, false, Option, none, some, List, [], ◌∷◌, ◌++◌, arith, append-nil,
  append_assoc, ltb, ◌==◌, if◌then◌else◌, length, length-append, All, Result, ok, err, Bool-cases,
  inl, inr, Option-cases, ap, ◌∙◌, lt→ltb,
}
use pi_mob.Jsonl.{
  DecodedRecord, Decoder, JsonlError, Outcome, push, push_merged, settle, drain, read_line, lf,
}
use pi_mob.Jsonl.Walk.{Walked, close_line, walk, graft, resume, flat, drain-walk, walk-append}

abbrev pub HasNoLf : List ℕ → Type 0
HasNoLf = All (λ b. (b == lf) ≡ false)

-- A decoder between two pushes of a healthy stream.
pub record IsReady (d : Decoder) : Type 0 where
  pub unfinished : d.finished ≡ false
  pub no_lf : HasNoLf d.pending
  pub bounded : length d.pending ≤ d.max_bytes

-- The decoder and the result of a call that does not throw.
abbrev pub returned : {A : Type 0} → Outcome A → Option (Decoder × A)
returned (d, ok a) = some (d, a)
returned (d, err e) = none

module _ {V : Type 0} (decode : List ℕ → Option (List ℕ)) (parse : List ℕ → Option V) where
  -- The end of a push on the state of the machine.
  unfoldable pub settled : Decoder → Walked V → Option (Decoder × List (DecodedRecord V))
  settled d none = none
  settled d (some (count, line, rs)) =
      if ltb d.max_bytes (length line)
      then none
      else some (record d { pending = line; record_count = count }, rs)

  returned-settle :
      (d : Decoder) (merged : List ℕ) (s : ℕ × Result JsonlError (List (DecodedRecord V) × List ℕ))
      → returned (settle decode parse d merged s) ≡ settled d (flat decode parse s)
  unfolding settle settled flat
  returned-settle d merged (count, ok (rs, rest)) =
      elim (Bool-cases (ltb d.max_bytes (length rest))) [ inl e ↦ rw e | inr e ↦ rw e ]
  returned-settle d merged (count, err e) = refl

  pub walk_no_lf :
      (max count : ℕ) (line bs : List ℕ)
      → HasNoLf bs
      → walk decode parse max count line bs ≡ some (count, line ++ bs, [])
  unfolding walk
  walk_no_lf max count line [] h = rw append-nil
  walk_no_lf max count line (b ∷ bs) h =
      rw (h.0, walk_no_lf max count (line ++ (b ∷ [])) bs h.1, append_assoc)

  resume_no_lf :
      (max count : ℕ) (pending bs : List ℕ)
      → HasNoLf pending
      → walk decode parse max count [] (pending ++ bs) ≡ walk decode parse max count pending bs
  unfolding resume graft
  resume_no_lf max count pending bs h =
      rw (walk-append, walk_no_lf max count [] pending h)
        (elim (Option-cases (walk decode parse max count pending bs)) [
          | inl e ↦ rw (e, graft)
          | inr (w, e) ↦ rw (e, graft)
        ])

  push_merged-walk :
      (d : Decoder) (bs : List ℕ)
      → HasNoLf d.pending
      → returned (push_merged decode parse d (d.pending ++ bs))
        ≡ settled d (walk decode parse d.max_bytes d.record_count d.pending bs)
  unfolding push_merged
  push_merged-walk d bs h =
      let merged = d.pending ++ bs in
      returned-settle d merged
        (drain decode parse (suc (length merged)) d.max_bytes d.record_count merged)
      ∙ ap (settled d) (
          drain-walk decode parse (suc (length merged)) d.max_bytes d.record_count merged
            (omega arith)
          ∙ resume_no_lf d.max_bytes d.record_count d.pending bs h)

  -- A push on a ready decoder is the machine's walk from its unfinished line.
  pub push-walk :
      (d : Decoder) (chunk : List ℕ)
      → IsReady d
      → returned (push decode parse d chunk)
        ≡ settled d (walk decode parse d.max_bytes d.record_count d.pending chunk)
  unfolding push settled walk
  push-walk d [] h = ground arith
  push-walk d (b ∷ bs) h = elim (Bool-cases d.finished) [
    | inl e ↦ absurd (ground arith)
    | inr e ↦ simp e (push_merged-walk d (b ∷ bs) h.no_lf)
  ]

  -- The records of a later push come behind those of an earlier one.
  unfoldable pub behind :
      List (DecodedRecord V)
      → Option (Decoder × List (DecodedRecord V))
      → Option (Decoder × List (DecodedRecord V))
  behind rs none = none
  behind rs (some (d, ts)) = some (d, rs ++ ts)

  pub settled-graft :
      (d : Decoder) (rs : List (DecodedRecord V)) (w : Walked V)
      → settled d (graft decode parse rs w) ≡ behind rs (settled d w)
  unfolding settled graft behind
  settled-graft d rs none = refl
  settled-graft d rs (some (count, line, ts)) = ground arith

  -- A line beyond the limit stays beyond it, so the stream is lost.
  pub too_long :
      (d : Decoder) (count : ℕ) (line bs : List ℕ)
      → d.max_bytes < length line
      → settled d (walk decode parse d.max_bytes count line bs) ≡ none
  unfolding settled walk close_line read_line
  too_long d count line [] h = rw (lt→ltb _ _ h)
  too_long d count line (b ∷ bs) h = elim (Bool-cases (b == lf)) [
    | inl e ↦ rw (e, lt→ltb _ _ h, read_line)
    | inr e ↦
        rw e (too_long d count (line ++ (b ∷ [])) bs (omega (arith, length-append line (b ∷ []))))
  ]
