-- ===== src/Jsonl/Wire.antt =====
-- packages/bridge/src/pi/jsonl.ts: streams that a producer writes.
use pi_mob.Prelude.{
  ℕ, suc, ◌+◌, ◌≤◌, ◌≡◌, ◌≢◌, refl, Bool, true, false, Option, some, List, [], ◌∷◌, ◌++◌, arith,
  if◌then◌else◌, length, length-append, All, All-append, ok, ◌==◌, sym, subst, ◌∙◌, ap, append-nil,
  le→ltb_false,
}
use mathlib.Core.List.{flatten}
use native.Mathlib.Nat.{add-zero}
use pi_mob.Jsonl.{DecodedRecord, Decoder, strip_cr, read_line, parse_text, lf, cr}
use pi_mob.Jsonl.Walk.{walk, walk-append, close_line, graft-nil, resume}
use pi_mob.Jsonl.Pushes.{HasNoLf, IsReady, settled, walk_no_lf, push-walk}
use pi_mob.Jsonl.Chunks.{push_all, push_all-push}

-- One record as a producer writes it, with the text that it decodes to and the value that this
-- parses to. `crlf` is a line that ends in CR LF.
pub record WireLine (V : Type 0) : Type 0 where
  pub payload : List ℕ
  pub crlf : Bool
  pub text : List ℕ
  pub value : V

module _ {V : Type 0} (decode : List ℕ → Option (List ℕ)) (parse : List ℕ → Option V) where
  -- The bytes before the LF.
  abbrev pub line_bytes : WireLine V → List ℕ
  line_bytes w = w.payload ++ (if w.crlf then cr ∷ [] else [])

  pub record IsWritten (max : ℕ) (w : WireLine V) : Type 0 where
    pub no_lf : HasNoLf w.payload
    pub no_cr : strip_cr w.payload ≡ w.payload
    pub fits : length w.payload + 1 ≤ max
    pub decodes : decode w.payload ≡ some w.text
    pub non_empty : w.text ≢ []
    pub parses : parse w.text ≡ some w.value

  abbrev pub encode : List (WireLine V) → List ℕ
  encode [] = []
  encode (w ∷ ws) = line_bytes w ++ (lf ∷ encode ws)

  abbrev pub records : ℕ → List (WireLine V) → List (DecodedRecord V)
  records count [] = []
  records count (w ∷ ws) =
      record { value = w.value; raw = w.text; record_number = count + 1 } ∷ records (suc count) ws

  strip_cr-append : (bs : List ℕ) → strip_cr (bs ++ (cr ∷ [])) ≡ bs
  unfolding strip_cr
  strip_cr-append [] = refl
  strip_cr-append (b ∷ []) = refl
  strip_cr-append (b ∷ c ∷ bs) = ap (◌∷◌ b) (strip_cr-append (c ∷ bs))

  parse_text-written :
      (count : ℕ) (text : List ℕ) {v : V}
      → text ≢ []
      → parse text ≡ some v
      → parse_text decode parse count text
        ≡ ok (some (record { value = v; raw = text; record_number = count + 1 }))
  unfolding parse_text
  parse_text-written count [] n e = absurd (n refl)
  parse_text-written count (u ∷ us) n e = rw (e, parse_text)

  -- The three facts about a line's bytes, with either line end.
  line_facts :
      (max : ℕ) (payload : List ℕ) (crlf : Bool)
      → HasNoLf payload
      → strip_cr payload ≡ payload
      → length payload + 1 ≤ max
      → let line = payload ++ (if crlf then cr ∷ [] else []) in
        HasNoLf line × (strip_cr line ≡ payload) × (length line ≤ max)
  line_facts max payload true n s f = (
    All-append (λ b. (b == lf) ≡ false) payload (cr ∷ []) n (refl, tt),
    strip_cr-append payload,
    omega (arith, length-append payload (cr ∷ [])),
  )
  line_facts max payload false n s f = rw append-nil (n, s, omega arith)

  read_line-written :
      (max count : ℕ) (w : WireLine V)
      → IsWritten max w
      → read_line decode parse max count (line_bytes w)
        ≡ ok (some (record { value = w.value; raw = w.text; record_number = count + 1 }))
  unfolding read_line
  read_line-written max count w h =
      let (n, s, f) = line_facts max w.payload w.crlf h.no_lf h.no_cr h.fits in
      rw (le→ltb_false _ _ f, s, h.decodes, read_line)
        (parse_text-written count w.text h.non_empty h.parses)

  walk-line :
      (max count : ℕ) (line rest : List ℕ)
      → HasNoLf line
      → walk decode parse max count [] (line ++ (lf ∷ rest))
        ≡ close_line decode parse
            (λ n. walk decode parse max n [] rest)
            count
            (read_line decode parse max count line)
  unfolding walk resume
  walk-line max count line rest h =
      walk-append decode parse max count [] line (lf ∷ rest)
      ∙ rw (walk_no_lf decode parse max count [] line h) (graft-nil decode parse _)

  walk-encode :
      (max count : ℕ) (ws : List (WireLine V))
      → All (IsWritten max) ws
      → walk decode parse max count [] (encode ws) ≡ some (count + length ws, [], records count ws)
  unfolding walk close_line
  walk-encode max count [] h = rw add-zero
  walk-encode max count (w ∷ ws) h =
      let (n, s, f) = line_facts max w.payload w.crlf h.0.no_lf h.0.no_cr h.0.fits in
      rw
        (
          walk-line max count (line_bytes w) (encode ws) n,
          read_line-written max count w h.0,
          walk-encode max (suc count) ws h.1,
        )
        (ground arith)

  -- From a ready decoder with nothing pending: the lines of a producer, cut into chunks in any way,
  -- are read back as their records, in order, numbered from the record count, and no byte stays
  -- pending. A line's payload with its end is within the limit, holds no LF, ends in no CR, and
  -- decodes to a text that is not empty and that parses; the line ends in LF or CR LF.
  pub push_all-encode :
      (d : Decoder) (ws : List (WireLine V)) (chunks : List (List ℕ))
      → IsReady d
      → d.pending ≡ []
      → All (IsWritten d.max_bytes) ws
      → flatten chunks ≡ encode ws
      → push_all decode parse d chunks
        ≡ some (record d { record_count = d.record_count + length ws }, records d.record_count ws)
  unfolding settled
  push_all-encode d ws chunks r p h e =
      push_all-push decode parse chunks d r
      ∙ rw e (push-walk decode parse d (encode ws) r ∙ encoded)
    where
      encoded :
          settled decode parse d
            (walk decode parse d.max_bytes d.record_count d.pending (encode ws))
          ≡ some (record d { record_count = d.record_count + length ws }, records d.record_count ws)
      encoded =
          subst
            (λ bs.
              settled decode parse d (walk decode parse d.max_bytes d.record_count bs (encode ws))
              ≡ some (
                record d { record_count = d.record_count + length ws },
                records d.record_count ws,
              ))
            (sym p) (rw (walk-encode d.max_bytes d.record_count ws h) (ground arith))
