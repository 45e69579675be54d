-- ===== src/Prelude/Lists.antt =====
-- Lists measured by native numbers, Boolean filters, and predicates over lists.
use Prim.Native.Nat.{ℕ, zero, suc, ◌+◌, ◌-◌, ◌≤◌, min}
use mathlib.Core.Path.{◌≡◌, refl}
use mathlib.Core.Bool.{Bool, true, false, ◌&&◌, ◌||◌}
use mathlib.Core.List.{List, [], ◌∷◌, ◌++◌}
use mathlib.Core.Option.{Option, none, some}
use native.Mathlib.Omega.{arith}
use pi_mob.Prelude.Tests.{if◌then◌else◌, leb, is_some}

module _ {ℓ} {A : Type ℓ} where
  abbrev pub length : List A → ℕ
  length [] = 0
  length (x ∷ xs) = suc (length xs)

  abbrev pub take : ℕ → List A → List A
  take zero xs = []
  take (suc n) [] = []
  take (suc n) (x ∷ xs) = x ∷ take n xs

  abbrev pub drop : ℕ → List A → List A
  drop zero xs = xs
  drop (suc n) [] = []
  drop (suc n) (x ∷ xs) = drop n xs

  -- `xs.filter(test)`.
  abbrev pub keep : (A → Bool) → List A → List A
  keep test [] = []
  keep test (x ∷ xs) = if test x then x ∷ keep test xs else keep test xs

  -- `xs.find(test)`.
  abbrev pub first : (A → Bool) → List A → Option A
  first test [] = none
  first test (x ∷ xs) = if test x then some x else first test xs

  -- `xs.some(test)` and `xs.every(test)`.
  abbrev pub has : (A → Bool) → List A → Bool
  has test [] = false
  has test (x ∷ xs) = test x || has test xs

  abbrev pub every : (A → Bool) → List A → Bool
  every test [] = true
  every test (x ∷ xs) = test x && every test xs

  -- `UPDATE ... WHERE test`.
  abbrev pub update : (A → Bool) → (A → A) → List A → List A
  update test f [] = []
  update test f (x ∷ xs) = (if test x then f x else x) ∷ update test f xs

  -- `ORDER BY key`, stable.
  abbrev pub insert_by : (A → ℕ) → A → List A → List A
  insert_by key x [] = x ∷ []
  insert_by key x (y ∷ ys) = if leb (key x) (key y) then x ∷ (y ∷ ys) else y ∷ insert_by key x ys

  abbrev pub sort_by : (A → ℕ) → List A → List A
  sort_by key [] = []
  sort_by key (x ∷ xs) = insert_by key x (sort_by key xs)

  -- A value for every element of the list.
  abbrev pub All {κ} : (A → Type κ) → List A → Type κ
  All P [] = Unit
  All P (x ∷ xs) = P x × All P xs

  pub keep-keep : (p q : A → Bool) (xs : List A) → keep (λ x. p x && q x) xs ≡ keep q (keep p xs)
  keep-keep p q [] = refl
  keep-keep p q (x ∷ xs) = ground (arith, keep-keep p q xs)

  pub keep_cong : (p q : A → Bool) (xs : List A) → All (λ x. p x ≡ q x) xs → keep p xs ≡ keep q xs
  keep_cong p q [] h = refl
  keep_cong p q (x ∷ xs) h = rw (h.0, keep_cong p q xs h.1)

  pub first-append :
      (p : A → Bool) (xs ys : List A)
      → first p (xs ++ ys) ≡ (if is_some (first p xs) then first p xs else first p ys)
  first-append p [] ys = refl
  first-append p (x ∷ xs) ys = ground (arith, first-append p xs ys)

  pub has-append : (p : A → Bool) (xs ys : List A) → has p (xs ++ ys) ≡ (has p xs || has p ys)
  has-append p [] ys = refl
  has-append p (x ∷ xs) ys = ground (arith, has-append p xs ys)

  pub first-has : (p : A → Bool) (xs : List A) → is_some (first p xs) ≡ has p xs
  first-has p [] = refl
  first-has p (x ∷ xs) = ground (arith, first-has p xs)

  pub length-append : (xs ys : List A) → length (xs ++ ys) ≡ length xs + length ys
  length-append [] ys = omega arith
  length-append (x ∷ xs) ys = omega (arith, length-append xs ys)

  pub length-keep-append :
      (p : A → Bool) (xs ys : List A)
      → length (keep p (xs ++ ys)) ≡ length (keep p xs) + length (keep p ys)
  length-keep-append p [] ys = omega arith
  length-keep-append p (x ∷ xs) ys = ground (arith, length-keep-append p xs ys)

  pub length-drop : (n : ℕ) (xs : List A) → length (drop n xs) ≡ length xs - n
  length-drop zero xs = omega arith
  length-drop (suc n) [] = omega arith
  length-drop (suc n) (x ∷ xs) = omega (arith, length-drop n xs)

  pub length-take : (n : ℕ) (xs : List A) → length (take n xs) ≡ min n (length xs)
  length-take zero xs = omega arith
  length-take (suc n) [] = omega arith
  length-take (suc n) (x ∷ xs) = omega (arith, length-take n xs)

  pub length-keep-le : (test : A → Bool) (xs : List A) → length (keep test xs) ≤ length xs
  length-keep-le test [] = omega arith
  length-keep-le test (x ∷ xs) = ground (arith, length-keep-le test xs)

module _ {ℓ κ} {A : Type ℓ} (P : A → Type κ) where
  pub All-append : (xs ys : List A) → All P xs → All P ys → All P (xs ++ ys)
  All-append [] ys hx hy = hy
  All-append (x ∷ xs) ys hx hy = (hx.0, All-append xs ys hx.1 hy)

  pub All-keep : (test : A → Bool) (xs : List A) → All P xs → All P (keep test xs)
  All-keep test [] h = h
  All-keep test (x ∷ xs) h = ground (arith, All-keep test xs h.1)

module _ {ℓ κ μ} {A : Type ℓ} {P : A → Type κ} {Q : A → Type μ} where
  pub All-map : ((x : A) → P x → Q x) → (xs : List A) → All P xs → All Q xs
  All-map f [] h = tt
  All-map f (x ∷ xs) h = (f x h.0, All-map f xs h.1)
