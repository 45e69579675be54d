-- ===== src/Cursor.antt =====
-- packages/protocol-schema/src/index.ts: compareDecimalCursors, and the cursor comparison in the SQL
-- of packages/bridge/src/core/store.ts. A cursor's text is the list of its character codes.
pub mod Order
pub mod Tests
use pi_mob.Prelude.{
  ℕ, zero, suc, ◌+◌, ◌*◌, ◌-◌, Bool, true, false, ◌&&◌, ◌||◌, Option, none, some, List, [], ◌∷◌,
  leb, ltb, ◌==◌, if◌then◌else◌, length,
}

abbrev is_digit : ℕ → Bool
is_digit c = leb b'0' c && leb c b'9'

pub all_digits : List ℕ → Bool
all_digits [] = true
all_digits (c ∷ cs) = is_digit c && all_digits cs

-- The pattern `^(?:0|[1-9][0-9]*)$`.
pub is_canonical : List ℕ → Bool
is_canonical [] = false
is_canonical (c ∷ []) = is_digit c
is_canonical (c ∷ d ∷ cs) = leb b'1' c && leb c b'9' && all_digits (d ∷ cs)

-- `left === right` and `left < right` on texts.
unfoldable pub text_eq : List ℕ → List ℕ → Bool
text_eq [] [] = true
text_eq (a ∷ u) (b ∷ v) = a == b && text_eq u v
text_eq _ _ = false

pub text_lt : List ℕ → List ℕ → Bool
text_lt [] [] = false
text_lt [] (b ∷ v) = true
text_lt (a ∷ u) [] = false
text_lt (a ∷ u) (b ∷ v) = if a == b then text_lt u v else ltb a b

pub data Sign : Type 0 where
  minus_one same plus_one : Sign

-- `none` is the thrown TypeError.
pub compare_decimal_cursors : List ℕ → List ℕ → Option Sign
compare_decimal_cursors left right =
    if is_canonical left && is_canonical right
    then some (
        if length left == length right
        then (if text_eq left right
            then same
            else if text_lt left right
            then minus_one
            else plus_one)
        else if ltb (length left) (length right)
        then minus_one
        else plus_one)
    else none

-- `length(cursor)>length(?) OR (length(cursor)=length(?) AND cursor>?)`.
pub sql_after : List ℕ → List ℕ → Bool
sql_after cursor after =
    ltb (length after) (length cursor) || (length cursor == length after && text_lt after cursor)

-- The number that a canonical text stands for.
abbrev pub weight : List ℕ → ℕ
weight [] = 1
weight (c ∷ cs) = 10 * weight cs

abbrev pub value : List ℕ → ℕ
value [] = 0
value (c ∷ cs) = (c - b'0') * weight cs + value cs
