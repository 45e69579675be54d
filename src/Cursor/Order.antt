-- ===== src/Cursor/Order.antt =====
-- packages/protocol-schema/src/index.ts: the order of canonical cursor texts is that of the numbers.
use pi_mob.Prelude.{
  ℕ, ◌+◌, ◌*◌, ◌-◌, ◌≤◌, ◌<◌, ◌≡◌, refl, true, ◌&&◌, none, some, List, [], ◌∷◌, arith, ltb, ◌==◌,
  if◌then◌else◌, length, Bool-cases, inl, inr, ap, trichotomy, ◌∙◌, ==_refl,
}
use pi_mob.Cursor.{
  Sign, minus_one, same, plus_one, all_digits, is_canonical, text_eq, text_lt,
  compare_decimal_cursors, sql_after, weight, value,
}

weight_pos : (cs : List ℕ) → 0 < weight cs
weight_pos [] = omega arith
weight_pos (c ∷ cs) = omega (arith, weight_pos cs)

mul-le-nine : (d w : ℕ) → d ≤ 9 → d * w ≤ 9 * w
mul-le-nine d w h = grind arith

value-lt-weight : (cs : List ℕ) → all_digits cs ≡ true → value cs < weight cs
unfolding all_digits
value-lt-weight [] h = omega arith
value-lt-weight (c ∷ cs) h =
    let d : c - b'0' ≤ 9 = ground arith in
    let r : all_digits cs ≡ true = ground arith in
    omega (arith, mul-le-nine (c - b'0') (weight cs) d, value-lt-weight cs r)

weight-length : (u v : List ℕ) → length u ≡ length v → weight u ≡ weight v
weight-length [] [] h = refl
weight-length [] (b ∷ v) h = absurd (omega arith)
weight-length (a ∷ u) [] h = absurd (omega arith)
weight-length (a ∷ u) (b ∷ v) h = omega (arith, weight-length u v (omega arith))

mul_gap : (d e w : ℕ) → d < e → d * w + w ≤ e * w
mul_gap d e w h = grind arith

all_digits-cons :
    (c : ℕ) (cs : List ℕ)
    → all_digits (c ∷ cs) ≡ true
    → (b'0' ≤ c) × (c ≤ b'9') × (all_digits cs ≡ true)
unfolding all_digits
all_digits-cons c cs h = ground arith

-- The first digits decide.
value_lt :
    (a b : ℕ) (u v : List ℕ)
    → all_digits (a ∷ u) ≡ true
    → all_digits (b ∷ v) ≡ true
    → length u ≡ length v
    → a < b
    → value (a ∷ u) < value (b ∷ v)
value_lt a b u v h k l o =
    let (a0, a9, us) = all_digits-cons a u h in
    let (b0, b9, vs) = all_digits-cons b v k in
    omega (
      arith,
      mul_gap (a - b'0') (b - b'0') (weight u) (omega arith),
      value-lt-weight u us,
      ap (λ (w : ℕ). (b - b'0') * w) (weight-length u v l),
    )

same_head :
    {x y : ℕ} (m n : ℕ) → x ≡ y → (ltb (x + m) (y + n) ≡ ltb m n) × ((x + m == y + n) ≡ (m == n))
same_head m n e = ground arith

-- On texts of digits of one length the order of texts is the order of numbers.
text-value :
    (u v : List ℕ)
    → all_digits u ≡ true
    → all_digits v ≡ true
    → length u ≡ length v
    → (text_lt u v ≡ ltb (value u) (value v)) × (text_eq u v ≡ (value u == value v))
unfolding text_lt text_eq
text-value [] [] h k l = (refl, refl)
text-value [] (b ∷ v) h k l = absurd (omega arith)
text-value (a ∷ u) [] h k l = absurd (omega arith)
text-value (a ∷ u) (b ∷ v) h k l =
    let us = (all_digits-cons a u h).2 in
    let vs = (all_digits-cons b v k).2 in
    let ih = text-value u v us vs (omega arith) in
    let w : (b - b'0') * weight u ≡ (b - b'0') * weight v =
      ap (λ (w : ℕ). (b - b'0') * w) (weight-length u v (omega arith)) in
    elim (trichotomy a b) [
      | inl o ↦ let p = value_lt a b u v h k (omega arith) o in ground arith
      | inr (inl e) ↦
          let q = same_head (value u) (value v) (ap (λ (c : ℕ). (c - b'0') * weight u) e ∙ w) in
          (rw (q.0, e, ==_refl b) ih.0, rw (q.1, e, ==_refl b) ih.1)
      | inr (inr o) ↦ let p = value_lt b a v u k h (omega arith) o in ground arith
    ]

weight_mono : (u v : List ℕ) → length u ≤ length v → weight u ≤ weight v
weight_mono [] v h = weight_pos v
weight_mono (a ∷ u) [] h = absurd (omega arith)
weight_mono (a ∷ u) (b ∷ v) h = omega (arith, weight_mono u v (omega arith))

canonical-digits : (u : List ℕ) → is_canonical u ≡ true → all_digits u ≡ true
unfolding is_canonical all_digits
canonical-digits [] h = refl
canonical-digits (c ∷ []) h = ground arith
canonical-digits (c ∷ d ∷ cs) h = ground arith

-- A canonical text with more digits stands for a larger number.
value_lt_of_length :
    (u v : List ℕ)
    → is_canonical u ≡ true
    → is_canonical v ≡ true
    → length u < length v
    → value u < value v
unfolding is_canonical
value_lt_of_length [] v h k l = cc
value_lt_of_length (a ∷ u) [] h k l = absurd (omega arith)
value_lt_of_length (a ∷ u) (c ∷ []) h k l = absurd (omega arith)
value_lt_of_length (a ∷ u) (c ∷ d ∷ cs) h k l =
    let first_digit : 1 ≤ c - b'0' = ground arith in
    omega (
      arith,
      value-lt-weight (a ∷ u) (canonical-digits (a ∷ u) h),
      weight_mono (a ∷ u) (d ∷ cs) (omega arith),
      mul_gap 0 (c - b'0') (weight (d ∷ cs)) first_digit,
    )

-- The sign of a difference.
abbrev pub sign_of : ℕ → ℕ → Sign
sign_of m n = if m == n then same else if ltb m n then minus_one else plus_one

-- Canonical texts compare as the numbers they stand for; on any other text the comparison throws.
pub compare_decimal_cursors_numeric :
    (u v : List ℕ)
    → compare_decimal_cursors u v
      ≡ (if is_canonical u && is_canonical v then some (sign_of (value u) (value v)) else none)
unfolding compare_decimal_cursors
compare_decimal_cursors_numeric u v = elim (Bool-cases (is_canonical u && is_canonical v)) [
  | inl e ↦ rw e (ap some (compare_canonical u v (ground arith) (ground arith)))
  | inr e ↦ rw e
]
  where
    compare_canonical :
        (u v : List ℕ)
        → is_canonical u ≡ true
        → is_canonical v ≡ true
        → (if length u == length v
            then (if text_eq u v then same else if text_lt u v then minus_one else plus_one)
            else if ltb (length u) (length v)
            then minus_one
            else plus_one)
          ≡ sign_of (value u) (value v)
    compare_canonical u v h k = elim (trichotomy (length u) (length v)) [
      | inl o ↦ let p = value_lt_of_length u v h k o in ground arith
      | inr (inl e) ↦
          let q = text-value u v (canonical-digits u h) (canonical-digits v k) e in
          rw (q.0, q.1, e, ==_refl (length v))
      | inr (inr o) ↦ let p = value_lt_of_length v u k h o in ground arith
    ]

-- The comparison in the SQL of the journal reads canonical cursors as numbers.
pub sql_after_numeric :
    (cursor after : List ℕ)
    → is_canonical cursor ≡ true
    → is_canonical after ≡ true
    → sql_after cursor after ≡ ltb (value after) (value cursor)
unfolding sql_after
sql_after_numeric cursor after h k = elim (trichotomy (length after) (length cursor)) [
  | inl o ↦ let p = value_lt_of_length after cursor k h o in ground arith
  | inr (inl e) ↦
      let q = text-value after cursor (canonical-digits after k) (canonical-digits cursor h) e in
      rw (q.0, e) (ground arith)
  | inr (inr o) ↦ let p = value_lt_of_length cursor after h k o in ground arith
]

pub text_eq_refl : (t : List ℕ) → text_eq t t ≡ true
unfolding text_eq
text_eq_refl [] = refl
text_eq_refl (c ∷ cs) = rw (==_refl c) (text_eq_refl cs)
