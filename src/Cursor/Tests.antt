-- ===== src/Cursor/Tests.antt =====
-- packages/protocol-schema/src/index.ts: the theorems on cursors, at 9 and 10.
use pi_mob.Prelude.{◌≡◌, refl, true, ◌&&◌, some, none, if◌then◌else◌, [], ◌∷◌, ltb}
use pi_mob.Cursor.{is_canonical, compare_decimal_cursors, sql_after, value}
use pi_mob.Cursor.Order.{sign_of, compare_decimal_cursors_numeric, sql_after_numeric}

compare_decimal_cursors_numeric_example : compare_decimal_cursors (b'9' ∷ []) (b'1' ∷ b'0' ∷ []) ≡ (
    if is_canonical (b'9' ∷ []) && is_canonical (b'1' ∷ b'0' ∷ [])
    then some (sign_of (value (b'9' ∷ [])) (value (b'1' ∷ b'0' ∷ [])))
    else none)
compare_decimal_cursors_numeric_example =
    compare_decimal_cursors_numeric (b'9' ∷ []) (b'1' ∷ b'0' ∷ [])

sql_after_numeric_example :
    sql_after (b'1' ∷ b'0' ∷ []) (b'9' ∷ []) ≡ ltb (value (b'9' ∷ [])) (value (b'1' ∷ b'0' ∷ []))
unfolding is_canonical pi_mob.Cursor.all_digits
sql_after_numeric_example = sql_after_numeric (b'1' ∷ b'0' ∷ []) (b'9' ∷ []) refl refl

pub one-is_canonical : is_canonical (b'1' ∷ []) ≡ true
unfolding is_canonical pi_mob.Cursor.all_digits
one-is_canonical = refl

pub value-one : value (b'1' ∷ []) ≡ 1
value-one = refl
