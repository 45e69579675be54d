-- ===== src/Jsonl/Ready.antt =====
-- packages/bridge/src/pi/jsonl.ts: what a push keeps, and the numbers of its records.
use pi_mob.Prelude.{
  ℕ, suc, ◌+◌, ◌≡◌, refl, false, Option, none, some, List, [], ◌∷◌, ◌++◌, arith, ltb, ◌==◌, length,
  All-append, Result, ok, err, Bool-cases, inl, inr, sym, subst,
}
use pi_mob.Jsonl.{DecodedRecord, Decoder, JsonlError, push, read_line, parse_text, lf}
use pi_mob.Jsonl.Walk.{Walked, put, close_line, walk}
use pi_mob.Jsonl.Pushes.{HasNoLf, IsReady, returned, settled, push-walk}

module _ {V : Type 0} (decode : List ℕ → Option (List ℕ)) (parse : List ℕ → Option V) where
  -- The numbers of records that follow the record `count`.
  abbrev pub Numbered : ℕ → List (DecodedRecord V) → Type 0
  Numbered count [] = Unit
  Numbered count (r ∷ rs) = (r.record_number ≡ count + 1) × Numbered (suc count) rs

  -- What the machine keeps: an unfinished line with no LF, and records numbered in turn.
  abbrev Walks : ℕ → Walked V → Type 0
  Walks count none = Unit
  Walks count (some (count', line, rs)) =
      HasNoLf line × Numbered count rs × (count' ≡ count + length rs)

  Walks-put :
      (count : ℕ) (r : DecodedRecord V) (w : Walked V)
      → r.record_number ≡ count + 1
      → Walks (suc count) w
      → Walks count (put r w)
  Walks-put count r none e h = tt
  Walks-put count r (some (count', line, rs)) e h = (h.0, (e, h.1), omega (arith, h.2))

  read_line_number :
      (max count : ℕ) (line : List ℕ) (r : DecodedRecord V)
      → read_line decode parse max count line ≡ ok (some r)
      → r.record_number ≡ count + 1
  unfolding read_line parse_text
  read_line_number max count line r e = ground arith

  Walks-close_line :
      (max count : ℕ) (line bs : List ℕ)
      → ((n : ℕ) → Walks n (walk decode parse max n [] bs))
      → (r : Result JsonlError (Option (DecodedRecord V)))
      → read_line decode parse max count line ≡ r
      → Walks count (close_line decode parse (λ n. walk decode parse max n [] bs) count r)
  unfolding close_line
  Walks-close_line max count line bs ih (err e) h = tt
  Walks-close_line max count line bs ih (ok none) h = ih count
  Walks-close_line max count line bs ih (ok (some r)) h =
      Walks-put count r (walk decode parse max (suc count) [] bs)
        (read_line_number max count line r h) (ih (suc count))

  walk-Walks :
      (max count : ℕ) (line bs : List ℕ)
      → HasNoLf line
      → Walks count (walk decode parse max count line bs)
  unfolding walk
  walk-Walks max count line [] h = (h, tt, omega arith)
  walk-Walks max count line (b ∷ bs) h = elim (Bool-cases (b == lf)) [
    | inl e ↦ rw e (
        Walks-close_line max count line bs (λ n. walk-Walks max n [] bs tt)
          (read_line decode parse max count line) refl)
    | inr e ↦ rw e (
        walk-Walks max count (line ++ (b ∷ [])) bs
          (All-append (λ b. (b == lf) ≡ false) line (b ∷ []) h (e, tt)))
  ]

  -- What a push that does not throw promises.
  abbrev pub Pushed : Decoder → Option (Decoder × List (DecodedRecord V)) → Type 0
  Pushed d none = Unit
  Pushed d (some (d', rs)) =
      IsReady d'
      × Numbered d.record_count rs
      × (d'.record_count ≡ d.record_count + length rs)
      × (d'.max_bytes ≡ d.max_bytes)

  settled-Pushed :
      (d : Decoder) (w : Walked V)
      → d.finished ≡ false
      → Walks d.record_count w
      → Pushed d (settled decode parse d w)
  unfolding settled
  settled-Pushed d none u h = tt
  settled-Pushed d (some (count, line, rs)) u h =
      elim (Bool-cases (ltb d.max_bytes (length line))) [
        | inl e ↦ rw e tt
        | inr e ↦
            rw e (record { unfinished = u; no_lf = h.0; bounded = ground arith }, h.1, h.2, refl)
      ]

  -- A push on a ready decoder that does not throw leaves it ready, with the record count moved on by
  -- the records returned, and these are numbered in turn.
  pub push-Pushed :
      (d : Decoder) (chunk : List ℕ) → IsReady d → Pushed d (returned (push decode parse d chunk))
  push-Pushed d chunk h = subst (Pushed d) (sym (push-walk decode parse d chunk h)) (
      settled-Pushed d (walk decode parse d.max_bytes d.record_count d.pending chunk) h.unfinished
        (walk-Walks d.max_bytes d.record_count d.pending chunk h.no_lf))
