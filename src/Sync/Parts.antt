-- ===== src/Sync/Parts.antt =====
-- packages/bridge/src/core/domain.ts: how `sync` cuts a snapshot's text into parts.
use pi_mob.Prelude.{
  ℕ, ◌+◌, ◌≤◌, ◌≡◌, ◌≢◌, refl, List, [], ◌∷◌, ◌++◌, arith, ltb, length, All, All-append,
  append_assoc, append-nil, sym, Bool-cases, inl, inr, ◌⊎◌,
}
use mathlib.Core.List.{flatten}
use pi_mob.Sync.{cut_from, or_braces, snapshot_parts}

module _ (bytes : ℕ → ℕ) (max : ℕ) where
  abbrev pub size : List ℕ → ℕ
  size [] = 0
  size (c ∷ cs) = bytes c + size cs

  size-snoc : (cs : List ℕ) (d : ℕ) → size (cs ++ (d ∷ [])) ≡ size cs + bytes d
  size-snoc [] d = omega arith
  size-snoc (c ∷ cs) d = omega (arith, size-snoc cs d)

  -- A part within the limit, or one character that is larger than the limit alone.
  abbrev pub IsFit : List ℕ → Type 0
  IsFit p = (size p ≤ max) ⊎ (length p ≡ 1)

  flatten-snoc : (ps : List (List ℕ)) (p : List ℕ) → flatten (ps ++ (p ∷ [])) ≡ flatten ps ++ p
  unfolding flatten
  flatten-snoc [] p = append-nil p
  flatten-snoc (q ∷ ps) p = rw (flatten-snoc ps p, append_assoc)

  cut_from-flatten :
      (ps : List (List ℕ)) (frag : List ℕ) (n : ℕ) (text : List ℕ)
      → flatten (cut_from bytes max ps frag n text) ≡ flatten ps ++ (frag ++ text)
  unfolding cut_from
  cut_from-flatten ps [] n [] = sym (append-nil (flatten ps))
  cut_from-flatten ps (c ∷ cs) n [] = rw (flatten-snoc ps (c ∷ cs), append-nil)
  cut_from-flatten ps [] n (d ∷ ds) = cut_from-flatten ps (d ∷ []) (n + bytes d) ds
  cut_from-flatten ps (c ∷ cs) n (d ∷ ds) = elim (Bool-cases (ltb max (n + bytes d))) [
    | inl e ↦ rw (
      e,
      cut_from-flatten (ps ++ ((c ∷ cs) ∷ [])) (d ∷ []) (bytes d) ds,
      flatten-snoc ps (c ∷ cs),
      append_assoc,
    )
    | inr e ↦ rw (e, cut_from-flatten ps ((c ∷ cs) ++ (d ∷ [])) (n + bytes d) ds, append_assoc)
  ]

  -- The fragment is one character, or fits.
  IsOpen : List ℕ → ℕ → Type 0
  IsOpen frag n = (size frag ≡ n) × ((n ≤ max) ⊎ (length frag ≤ 1))

  open-IsFit : (c : ℕ) (cs : List ℕ) (n : ℕ) → IsOpen (c ∷ cs) n → IsFit (c ∷ cs)
  unfolding IsOpen
  open-IsFit c cs n (h, inl k) = inl (omega arith)
  open-IsFit c cs n (h, inr k) = inr (omega arith)

  cut_from-IsFit :
      (ps : List (List ℕ)) (frag : List ℕ) (n : ℕ) (text : List ℕ)
      → All IsFit ps
      → IsOpen frag n
      → All IsFit (cut_from bytes max ps frag n text)
  unfolding cut_from IsOpen
  cut_from-IsFit ps [] n [] h o = h
  cut_from-IsFit ps (c ∷ cs) n [] h o =
      All-append IsFit ps ((c ∷ cs) ∷ []) h (open-IsFit c cs n o, tt)
  cut_from-IsFit ps [] n (d ∷ ds) h o =
      cut_from-IsFit ps (d ∷ []) (n + bytes d) ds h (omega (arith, o.0), inr (omega arith))
  cut_from-IsFit ps (c ∷ cs) n (d ∷ ds) h o = elim (Bool-cases (ltb max (n + bytes d))) [
    | inl e ↦ rw e (
        cut_from-IsFit (ps ++ ((c ∷ cs) ∷ [])) (d ∷ []) (bytes d) ds
          (All-append IsFit ps ((c ∷ cs) ∷ []) h (open-IsFit c cs n o, tt))
          (omega arith, inr (omega arith)))
    | inr e ↦ rw e (
        cut_from-IsFit ps ((c ∷ cs) ++ (d ∷ [])) (n + bytes d) ds h
          (omega (arith, size-snoc (c ∷ cs) d, o.0), inl (ground arith)))
  ]

  or_braces-flatten :
      (ps : List (List ℕ)) (text : List ℕ)
      → flatten ps ≡ text
      → text ≢ []
      → flatten (or_braces bytes max ps) ≡ text
  unfolding flatten
  or_braces-flatten [] text e h = absurd (h (sym e))
  or_braces-flatten (p ∷ ps) text e h = e

  or_braces-IsFit :
      (ps : List (List ℕ))
      → IsFit (b'{' ∷ b'}' ∷ [])
      → All IsFit ps
      → All IsFit (or_braces bytes max ps)
  or_braces-IsFit [] k h = (k, tt)
  or_braces-IsFit (p ∷ ps) k h = h

  -- Where the limit has room for `{}`: the parts of a snapshot's text that is not empty, joined, are
  -- the text, and each part is within the limit of bytes, or a single character that is larger than
  -- the limit alone.
  pub snapshot_parts_exact :
      (text : List ℕ)
      → text ≢ []
      → size (b'{' ∷ b'}' ∷ []) ≤ max
      → (flatten (snapshot_parts bytes max text) ≡ text) × All IsFit (snapshot_parts bytes max text)
  unfolding snapshot_parts IsOpen flatten
  snapshot_parts_exact text ne h = (
    or_braces-flatten (cut_from bytes max [] [] 0 text) text (cut_from-flatten [] [] 0 text) ne,
    or_braces-IsFit (cut_from bytes max [] [] 0 text) (inl h)
        (cut_from-IsFit [] [] 0 text tt (refl, inr (omega arith))),
  )
