-- ===== src/Attachments/Filed.antt =====
-- packages/bridge/src/core/attachments.ts: the files of an upload, and what the hash and the reader make of them.
use pi_mob.Prelude.{
  ℕ, zero, suc, ◌+◌, ◌≤◌, ◌<◌, ◌≡◌, ◌≢◌, refl, sym, ap, subst, ◌∙◌, ◌⊎◌, inl, inr, true, Option,
  none, some, List, [], ◌∷◌, ◌++◌, ◌==◌, take, drop, length, length-drop, All, All-map, arith,
  append_assoc, append-nil, Bool-cases, ==_refl, ==_of_ne,
}
use pi_mob.Attachments.Defs.{Bytes, part, blob, Disk, put_file}
use pi_mob.Attachments.Append.{prefer, read_parts, nonempty_bytes, copy_part, copy_parts}
use pi_mob.Attachments.Stream.{slices, Delivery, upto, deliver_chunk, deliver}

abbrev pub concat : List Bytes → Bytes
concat [] = []
concat (b ∷ bs) = b ++ concat bs

-- The parts under these indices hold a text between them, each some of it.
abbrev pub Filed : ℕ → Disk → List ℕ → Bytes → Type 0
Filed p disk [] content = content ≡ []
Filed p disk (i ∷ is) content =
    (piece : Bytes) × (rest : Bytes) × (disk p i part ≡ some piece)
    × (nonempty_bytes (some piece) ≡ true)
    × (content ≡ piece ++ rest)
    × Filed p disk is rest

-- A blob is a copy of its part, if there is one.
abbrev pub BlobAgrees : ℕ → Disk → ℕ → Type 0
BlobAgrees p disk i = (disk p i blob ≡ none) ⊎ (disk p i blob ≡ disk p i part)

prefer_nonempty :
    (bs : Bytes) (other : Option Bytes)
    → nonempty_bytes (some bs) ≡ true
    → prefer (some bs) other ≡ some bs
prefer_nonempty [] other h = cc
prefer_nonempty (b ∷ bs) other h = refl

pub read_parts-Filed :
    (p : ℕ) (disk : Disk) (is : List ℕ) (content : Bytes)
    → Filed p disk is content
    → read_parts p disk is ≡ some content
unfolding read_parts
read_parts-Filed p disk [] content h = rw h refl
read_parts-Filed p disk (i ∷ is) content (piece, rest, found, full, cut, more) =
    rw
      (found, prefer_nonempty piece (disk p i blob) full, read_parts-Filed p disk is rest more, cut)
      refl

-- The parts of another disk that are the same.
pub Filed-same :
    (p : ℕ) (disk other : Disk) (is : List ℕ) (content : Bytes)
    → All (λ i. other p i part ≡ disk p i part) is
    → Filed p disk is content
    → Filed p other is content
Filed-same p disk other [] content h f = f
Filed-same p disk other (i ∷ is) content h (piece, rest, found, full, cut, more) =
    (piece, rest, h.0 ∙ found, full, cut, Filed-same p disk other is rest h.1 more)

pub Filed-snoc :
    (p : ℕ) (disk : Disk) (is : List ℕ) (content : Bytes) (n : ℕ) (bs : Bytes)
    → Filed p disk is content
    → disk p n part ≡ some bs
    → nonempty_bytes (some bs) ≡ true
    → Filed p disk (is ++ (n ∷ [])) (content ++ bs)
Filed-snoc p disk [] content n bs f e full = (bs, [], e, full, rw f (sym (append-nil bs)), refl)
Filed-snoc p disk (i ∷ is) content n bs (piece, rest, found, piece_full, cut, more) e full = (
  piece,
  rest ++ bs,
  found,
  piece_full,
  rw cut (append_assoc piece rest bs),
  Filed-snoc p disk is rest n bs more e full,
)

pub upto-snoc : (k n : ℕ) → upto k (n + 1) ≡ upto k n ++ ((k + n) ∷ [])
upto-snoc k zero = ground arith
upto-snoc k (suc n) = ground (arith, upto-snoc (k + 1) n)

pub upto-below : (k n : ℕ) → All (λ i. i ≢ k + n) (upto k n)
upto-below k zero = tt
upto-below k (suc n) = (
  omega arith,
  subst (λ m. All (λ i. i ≢ m) (upto (k + 1) n)) (omega arith) (upto-below (k + 1) n),
)

-- Another part of the attachment does not change those below it.
pub put_part-same :
    (p n : ℕ) (bs : Option Bytes) (disk : Disk) (is : List ℕ)
    → All (λ i. i ≢ n) is
    → All (λ i. put_file p n part bs disk p i part ≡ disk p i part) is
put_part-same p n bs disk is h =
    All-map {Q = λ i. put_file p n part bs disk p i part ≡ disk p i part}
      (λ i k. rw (==_refl p, ==_of_ne i n k) refl) is h

pub put_part-found :
    (p n : ℕ) (bs : Option Bytes) (disk : Disk) → put_file p n part bs disk p n part ≡ bs
put_part-found p n bs disk = rw (==_refl p, ==_refl n) refl

pub put_part-blob :
    (p n i : ℕ) (bs : Option Bytes) (disk : Disk)
    → put_file p n part bs disk p i blob ≡ disk p i blob
put_part-blob p n i bs disk = ground arith

copy_part-part :
    (p n i : ℕ) (o : Option Bytes) (disk : Disk) → copy_part p n o disk p i part ≡ disk p i part
copy_part-part p n i none disk = refl
copy_part-part p n i (some []) disk = refl
copy_part-part p n i (some (b ∷ bs)) disk = ground arith

copy_part-blob :
    (p n i : ℕ) (disk : Disk) (o : Option Bytes)
    → disk p n part ≡ o
    → BlobAgrees p disk i
    → BlobAgrees p (copy_part p n o disk) i
copy_part-blob p n i disk none e h = h
copy_part-blob p n i disk (some []) e h = h
copy_part-blob p n i disk (some (b ∷ bs)) e h = elim (Bool-cases (i == n)) [
  | inl same ↦ inr (ground (arith, e, same))
  | inr other ↦ elim h [
    | inl k ↦ inl (rw (==_refl p, other) k)
    | inr k ↦ inr (rw (==_refl p, other) k)
  ]
]

-- The copies leave the parts alone, and agree with them.
pub copy_parts-part : (p n i : ℕ) (disk : Disk) → copy_parts p n disk p i part ≡ disk p i part
unfolding copy_parts
copy_parts-part p zero i disk = refl
copy_parts-part p (suc n) i disk =
    copy_part-part p n i (disk p n part) (copy_parts p n disk) ∙ copy_parts-part p n i disk

pub copy_parts-BlobAgrees :
    (p n i : ℕ) (disk : Disk) → BlobAgrees p disk i → BlobAgrees p (copy_parts p n disk) i
unfolding copy_parts
copy_parts-BlobAgrees p zero i disk h = h
copy_parts-BlobAgrees p (suc n) i disk h =
    copy_part-blob p n i (copy_parts p n disk) (disk p n part) (copy_parts-part p n n disk)
      (copy_parts-BlobAgrees p n i disk h)

concat-append : (xs ys : List Bytes) → concat (xs ++ ys) ≡ concat xs ++ concat ys
concat-append [] ys = refl
concat-append (x ∷ xs) ys = rw (concat-append xs ys) (sym (append_assoc x (concat xs) (concat ys)))

take-drop : (n : ℕ) (xs : Bytes) → take n xs ++ drop n xs ≡ xs
take-drop zero xs = refl
take-drop (suc n) [] = refl
take-drop (suc n) (x ∷ xs) = ap (◌∷◌ x) (take-drop n xs)

drop-le :
    (n : ℕ) (x : ℕ) (xs : Bytes) (fuel : ℕ)
    → 0 < n
    → length (x ∷ xs) ≤ suc fuel
    → length (drop n (x ∷ xs)) ≤ fuel
drop-le n x xs fuel h k = let e = length-drop n (x ∷ xs) in omega (arith, e, h, k)

concat-slices :
    (size fuel : ℕ) (xs : Bytes) → 0 < size → length xs ≤ fuel → concat (slices size fuel xs) ≡ xs
unfolding slices
concat-slices size fuel [] h k = refl
concat-slices size zero (x ∷ xs) h k = absurd (omega arith)
concat-slices size (suc fuel) (x ∷ xs) h k =
    rw (concat-slices size fuel (drop size (x ∷ xs)) h (drop-le size x xs fuel h k))
      (take-drop size (x ∷ xs))

prefer_agrees :
    (p i : ℕ) (disk : Disk) (bs : Bytes)
    → BlobAgrees p disk i
    → disk p i part ≡ some bs
    → prefer (disk p i blob) (disk p i part) ≡ some bs
prefer_agrees p i disk [] a e = elim a [ inl k ↦ rw (k, e) refl | inr k ↦ rw (k, e) refl ]
prefer_agrees p i disk (b ∷ bs) a e = elim a [ inl k ↦ rw (k, e) refl | inr k ↦ rw (k, e) refl ]

delivered :
    (size : ℕ) (bs : Bytes) (d : Delivery)
    → 0 < size
    → nonempty_bytes (some bs) ≡ true
    → (concat (deliver_chunk size (some bs) d).given ≡ bs ++ concat d.given)
      × ((deliver_chunk size (some bs) d).failure ≡ d.failure)
delivered size [] d h k = cc
delivered size (b ∷ bs) d h k = (
  concat-append (slices size (length (b ∷ bs)) (b ∷ bs)) d.given
      ∙ ap (λ (t : Bytes). t ++ concat d.given)
          (concat-slices size (length (b ∷ bs)) (b ∷ bs) h (omega arith)),
  refl,
)

-- A reader is given the whole text, and no error.
pub deliver-Filed :
    (size p : ℕ) (disk : Disk) (is : List ℕ) (content : Bytes)
    → 0 < size
    → ((i : ℕ) → BlobAgrees p disk i)
    → Filed p disk is content
    → (concat (deliver size p disk is).given ≡ content) × ((deliver size p disk is).failure ≡ none)
unfolding deliver
deliver-Filed size p disk [] content h a f = (sym f, refl)
deliver-Filed size p disk (i ∷ is) content h a (piece, rest, found, full, cut, more) =
    let ih = deliver-Filed size p disk is rest h a more in
    let here = delivered size piece (deliver size p disk is) h full in
    rw (prefer_agrees p i disk piece (a i) found)
      (here.0 ∙ ap (◌++◌ piece) ih.0 ∙ sym cut, here.1 ∙ ih.1)
