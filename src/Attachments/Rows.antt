-- ===== src/Attachments/Rows.antt =====
-- packages/bridge/src/core/attachments.ts: the chunks' rows of an upload, in the order of their indices.
use pi_mob.Prelude.{
  ℕ, zero, suc, ◌+◌, ◌≤◌, ◌≡◌, ◌≢◌, refl, sym, ap, subst, ◌∙◌, true, false, List, [], ◌∷◌, ◌++◌,
  map, ◌==◌, has, keep, sort_by, All, All-map, IsSorted, sort_by-sorted, has-and, keep-snoc_yes,
  arith, ==_of_ne,
}
use pi_mob.Attachments.Defs.{Chunk, of_attachment}
use pi_mob.Attachments.Append.{is_chunk}
use pi_mob.Attachments.Stream.{upto}
use pi_mob.Attachments.Filed.{upto-snoc, upto-below}

abbrev pub index : Chunk → ℕ
index c = c.chunk_index

pub zero-add : (n : ℕ) → 0 + n ≡ n
zero-add n = omega arith

-- The rows of an attachment are numbered from zero.
abbrev pub IsNumbered : ℕ → ℕ → List Chunk → Type 0
IsNumbered i n cs = map index (keep (of_attachment i) cs) ≡ upto 0 n

head_eq : {x y : ℕ} {xs ys : List ℕ} → x ∷ xs ≡ y ∷ ys → x ≡ y
head_eq h = cc

tail_eq : {x y : ℕ} {xs ys : List ℕ} → x ∷ xs ≡ y ∷ ys → xs ≡ ys
tail_eq h = cc

numbered-IsSorted :
    (k n : ℕ) (cs : List Chunk)
    → map index cs ≡ upto k n
    → IsSorted index cs × All (λ c. k ≤ index c) cs
numbered-IsSorted k n [] h = (tt, tt)
numbered-IsSorted k zero (c ∷ cs) h = cc
numbered-IsSorted k (suc n) (c ∷ cs) h =
    let first = head_eq h in
    let (sorted, above) = numbered-IsSorted (k + 1) n cs (tail_eq h) in
    (
      (All-map {Q = λ d. index c ≤ index d} (λ d p. omega (arith, p, first)) cs above, sorted),
      (omega (arith, first), All-map {Q = λ d. k ≤ index d} (λ d p. omega (arith, p)) cs above),
    )

pub sort_numbered :
    (i n : ℕ) (cs : List Chunk)
    → IsNumbered i n cs
    → map index (sort_by index (keep (of_attachment i) cs)) ≡ upto 0 n
sort_numbered i n cs h =
    rw
      (sort_by-sorted index (keep (of_attachment i) cs)
        (numbered-IsSorted 0 n (keep (of_attachment i) cs) h).0)
      h

none_numbered :
    (n : ℕ) (cs : List Chunk)
    → All (λ j. j ≢ n) (map index cs)
    → has (λ c. c.chunk_index == n) cs ≡ false
none_numbered n [] h = refl
none_numbered n (c ∷ cs) h = rw (==_of_ne c.chunk_index n h.0) (none_numbered n cs h.1)

-- No row has the next number.
pub next_numbered : (i n : ℕ) (cs : List Chunk) → IsNumbered i n cs → has (is_chunk i n) cs ≡ false
next_numbered i n cs h =
    has-and (of_attachment i) (λ c. c.chunk_index == n) cs
    ∙ none_numbered n (keep (of_attachment i) cs) (
        subst (All (λ j. j ≢ n)) (sym h)
          (subst (λ m. All (λ j. j ≢ m) (upto 0 n)) (zero-add n) (upto-below 0 n)))

map-snoc :
    (cs : List Chunk) (c : Chunk) → map index (cs ++ (c ∷ [])) ≡ map index cs ++ (index c ∷ [])
map-snoc [] c = refl
map-snoc (d ∷ ds) c = ap (◌∷◌ (index d)) (map-snoc ds c)

pub snoc-IsNumbered :
    (i n : ℕ) (cs : List Chunk) (c : Chunk)
    → IsNumbered i n cs
    → of_attachment i c ≡ true
    → c.chunk_index ≡ n
    → IsNumbered i (n + 1) (cs ++ (c ∷ []))
snoc-IsNumbered i n cs c h o e =
    ap (map index) (keep-snoc_yes (of_attachment i) cs c o)
    ∙ map-snoc (keep (of_attachment i) cs) c
    ∙ ap (λ t. t ++ (c.chunk_index ∷ [])) h
    ∙ ap (λ m. upto 0 n ++ (m ∷ [])) (e ∙ sym (zero-add n))
    ∙ sym (upto-snoc 0 n)
