-- ===== src/Jsonl/Walk.antt =====
-- A reference machine for packages/bridge/src/pi/jsonl.ts that reads one byte at a time, and the
-- decoder's `while` loop as a run of it.
use pi_mob.Prelude.{
  ℕ, zero, suc, ◌<◌, ◌≡◌, refl, Option, none, some, List, [], ◌∷◌, ◌++◌, arith, append-nil,
  append_assoc, ◌==◌, if◌then◌else◌, length, Result, ok, err, Bool-cases, inl, inr, Option-cases,
  sym, ap, ◌∙◌,
}
use pi_mob.Jsonl.{
  DecodedRecord, JsonlError, take_line, extend_line, read_line, emit, round, drain, prepend, lf,
}

-- The records counted, the unfinished line, and the records emitted; `none` once a call throws.
abbrev pub Walked : Type 0 → Type 0
Walked V = Option (ℕ × List ℕ × List (DecodedRecord V))

abbrev pub put : {V : Type 0} → DecodedRecord V → Walked V → Walked V
put r none = none
put r (some (count, line, rs)) = some (count, line, r ∷ rs)

module _ {V : Type 0} (decode : List ℕ → Option (List ℕ)) (parse : List ℕ → Option V) where
  -- What an LF does to the unfinished line.
  unfoldable pub close_line :
      (ℕ → Walked V) → ℕ → Result JsonlError (Option (DecodedRecord V)) → Walked V
  close_line again count (err e) = none
  close_line again count (ok none) = again count
  close_line again count (ok (some r)) = put r (again (suc count))

  unfoldable pub walk : ℕ → ℕ → List ℕ → List ℕ → Walked V
  walk max count line [] = some (count, line, [])
  walk max count line (b ∷ bs) =
      let more = walk max count (line ++ (b ∷ [])) bs in
      let closed =
        close_line (λ n. walk max n [] bs) count (read_line decode parse max count line) in
      if b == lf then closed else more

  unfoldable pub graft : List (DecodedRecord V) → Walked V → Walked V
  graft rs none = none
  graft rs (some (count, line, ts)) = some (count, line, rs ++ ts)

  -- One walk after another.
  unfoldable pub resume : ℕ → List ℕ → Walked V → Walked V
  unfolding graft
  resume max bs none = none
  resume max bs (some (count, line, rs)) = graft rs (walk max count line bs)

  -- The walk of a whole line at once.
  by_line : ℕ → ℕ → List ℕ → List ℕ → Option (List ℕ × List ℕ) → Walked V
  by_line max count line bs none = some (count, line ++ bs, [])
  by_line max count line bs (some (l, rest)) =
      close_line (λ n. walk max n [] rest) count (read_line decode parse max count (line ++ l))

  by_line-extend_line :
      (max count b : ℕ) (line bs : List ℕ) (found : Option (List ℕ × List ℕ))
      → by_line max count (line ++ (b ∷ [])) bs found
        ≡ by_line max count line (b ∷ bs) (extend_line b found)
  unfolding by_line
  by_line-extend_line max count b line bs none = rw append_assoc
  by_line-extend_line max count b line bs (some (l, rest)) = rw append_assoc

  walk-by_line :
      (max count : ℕ) (line bs : List ℕ)
      → walk max count line bs ≡ by_line max count line bs (take_line bs)
  unfolding walk by_line take_line
  walk-by_line max count line [] = rw append-nil
  walk-by_line max count line (b ∷ bs) = elim (Bool-cases (b == lf)) [
    | inl e ↦ rw (e, append-nil)
    | inr e ↦
        rw (e, walk-by_line max count (line ++ (b ∷ [])) bs)
          (by_line-extend_line max count b line bs (take_line bs))
  ]

  length-extend_line :
      (b n : ℕ) (l rest : List ℕ) (found : Option (List ℕ × List ℕ))
      → extend_line b found ≡ some (l, rest)
      → ((l' rest' : List ℕ) → found ≡ some (l', rest') → length rest' < n)
      → length rest < suc n
  length-extend_line b n l rest none e h = cc
  length-extend_line b n l rest (some (l', rest')) e h =
      let p : length rest' ≡ length rest = cc in omega (arith, h l' rest' refl, p)

  length-take_line : (bs l rest : List ℕ) → take_line bs ≡ some (l, rest) → length rest < length bs
  unfolding take_line
  length-take_line [] l rest e = cc
  length-take_line (b ∷ bs) l rest e = elim (Bool-cases (b == lf)) [
    | inl p ↦ let q : bs ≡ rest = ground arith in rw (← q) (omega arith)
    | inr p ↦
        length-extend_line b (length bs) l rest (take_line bs) (rw p at e) (length-take_line bs)
  ]

  -- The state of the loop as a walk.
  unfoldable pub flat : ℕ × Result JsonlError (List (DecodedRecord V) × List ℕ) → Walked V
  flat (count, ok (rs, rest)) = some (count, rest, rs)
  flat (count, err e) = none

  flat-prepend :
      (r : DecodedRecord V) (d : ℕ × Result JsonlError (List (DecodedRecord V) × List ℕ))
      → flat (prepend decode parse r d) ≡ put r (flat d)
  unfolding flat
  flat-prepend r (count, ok (rs, rest)) = refl
  flat-prepend r (count, err e) = refl

  flat-emit :
      (max count fuel : ℕ) (rest : List ℕ) (r : Result JsonlError (Option (DecodedRecord V)))
      → ((n : ℕ) → flat (drain decode parse fuel max n rest) ≡ walk max n [] rest)
      → flat (emit decode parse (drain decode parse fuel max) count rest r)
        ≡ close_line (λ n. walk max n [] rest) count r
  unfolding emit close_line flat
  flat-emit max count fuel rest (err e) ih = refl
  flat-emit max count fuel rest (ok none) ih = ih count
  flat-emit max count fuel rest (ok (some r)) ih =
      flat-prepend r (drain decode parse fuel max (suc count) rest) ∙ ap (put r) (ih (suc count))

  -- On more fuel than bytes, the loop of `push` gives what the machine gives that reads one byte at a
  -- time and ends a record at each LF: the same records, count and bytes left, or an error.
  pub drain-walk :
      (fuel max count : ℕ) (bs : List ℕ)
      → length bs < fuel
      → flat (drain decode parse fuel max count bs) ≡ walk max count [] bs
  unfolding drain round flat by_line
  drain-walk zero max count bs h = absurd (omega arith)
  drain-walk (suc fuel) max count bs h = rw walk-by_line (elim (Option-cases (take_line bs)) [
    | inl e ↦ rw (e, round)
    | inr ((l, rest), e) ↦
        rw (e, round)
          (flat-emit max count fuel rest (read_line decode parse max count l)
            (λ n. drain-walk fuel max n rest (omega (arith, length-take_line bs l rest e))))
  ])

  resume-put :
      (max : ℕ) (bs : List ℕ) (r : DecodedRecord V) (w : Walked V)
      → resume max bs (put r w) ≡ put r (resume max bs w)
  unfolding resume graft
  resume-put max bs r none = refl
  resume-put max bs r (some (count, line, rs)) = elim (Option-cases (walk max count line bs)) [
    | inl e ↦ rw (e, graft)
    | inr (w, e) ↦ rw (e, graft)
  ]

  resume-close_line :
      (max count : ℕ) (us bs : List ℕ) (r : Result JsonlError (Option (DecodedRecord V)))
      → ((n : ℕ) → walk max n [] (us ++ bs) ≡ resume max bs (walk max n [] us))
      → close_line (λ n. walk max n [] (us ++ bs)) count r
        ≡ resume max bs (close_line (λ n. walk max n [] us) count r)
  unfolding close_line resume
  resume-close_line max count us bs (err e) ih = refl
  resume-close_line max count us bs (ok none) ih = ih count
  resume-close_line max count us bs (ok (some r)) ih =
      ap (put r) (ih (suc count)) ∙ sym (resume-put max bs r (walk max (suc count) [] us))

  pub graft-nil : (w : Walked V) → graft [] w ≡ w
  unfolding graft
  graft-nil none = refl
  graft-nil (some (count, line, rs)) = refl

  -- Walking two stretches of bytes is walking the first and then the second.
  pub walk-append :
      (max count : ℕ) (line us bs : List ℕ)
      → walk max count line (us ++ bs) ≡ resume max bs (walk max count line us)
  unfolding walk resume
  walk-append max count line [] bs = sym (graft-nil (walk max count line bs))
  walk-append max count line (b ∷ us) bs = elim (Bool-cases (b == lf)) [
    | inl e ↦ rw e (
        resume-close_line max count us bs (read_line decode parse max count line)
          (λ n. walk-append max n [] us bs))
    | inr e ↦ rw e (walk-append max count (line ++ (b ∷ [])) us bs)
  ]
