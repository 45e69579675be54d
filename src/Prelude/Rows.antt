-- ===== src/Prelude/Rows.antt =====
-- Rows of a table: a column whose values are unique, and rows that a statement updates.
use Prim.Native.Nat.{ℕ, ◌+◌, ◌≤◌}
use mathlib.Core.Path.{◌≡◌, refl, subst, sym, ap, ◌∙◌}
use mathlib.Core.Logic.{◌≢◌, inl, inr}
use mathlib.Core.Bool.{Bool, true, false, ◌||◌, ◌&&◌}
use mathlib.Core.List.{List, [], ◌∷◌, ◌++◌}
use mathlib.Core.Option.{none, some}
use native.Mathlib.Omega.{arith}
use pi_mob.Prelude.Tests.{◌==◌, ==_iff, Bool-cases, some_inj}
use pi_mob.Prelude.Lists.{length, keep, first, has, update, All}

module _ {ℓ} {A : Type ℓ} where
  -- A column whose values are all different: `PRIMARY KEY`, `UNIQUE`.
  abbrev pub IsUnique : (A → ℕ) → List A → Type 0
  IsUnique key [] = Unit
  IsUnique key (x ∷ xs) = All (λ y. key y ≢ key x) xs × IsUnique key xs

  pub first-All {κ} :
      (P : A → Type κ) (p : A → Bool) (xs : List A) (x : A) → All P xs → first p xs ≡ some x → P x
  first-All P p [] x h e = cc
  first-All P p (y ∷ ys) x h e = elim (Bool-cases (p y)) [
    | inl k ↦ subst P (some_inj (rw k at e)) h.0
    | inr k ↦ first-All P p ys x h.1 (rw k at e)
  ]

  pub first_test : (p : A → Bool) (xs : List A) (x : A) → first p xs ≡ some x → p x ≡ true
  first_test p [] x e = cc
  first_test p (y ∷ ys) x e = elim (Bool-cases (p y)) [
    | inl k ↦ subst (λ z. p z ≡ true) (some_inj (rw k at e)) k
    | inr k ↦ first_test p ys x (rw k at e)
  ]

  pub keep-none : (p : A → Bool) (xs : List A) → length (keep p xs) ≤ 0 → first p xs ≡ none
  keep-none p [] h = refl
  keep-none p (x ∷ xs) h = ground (arith, keep-none p xs)

  pub first-update-none :
      (p test : A → Bool) (f : A → A) (xs : List A)
      → ((x : A) → p x ≡ false → p (f x) ≡ false)
      → first p xs ≡ none
      → first p (update test f xs) ≡ none
  first-update-none p test f [] h e = refl
  first-update-none p test f (x ∷ xs) h e = ground (arith, h x, first-update-none p test f xs h)

  pub All-update {κ} :
      {P : A → Type κ} (test : A → Bool) (f : A → A) (xs : List A)
      → ((x : A) → P x → P (f x))
      → All P xs
      → All P (update test f xs)
  All-update test f [] g h = tt
  All-update test f (x ∷ xs) g h = elim (Bool-cases (test x)) [
    | inl e ↦ rw e (g x h.0, All-update test f xs g h.1)
    | inr e ↦ rw e (h.0, All-update test f xs g h.1)
  ]

  -- An update that leaves the column alone leaves it unique.
  pub update-IsUnique :
      (key : A → ℕ) (test : A → Bool) (f : A → A) (xs : List A)
      → ((x : A) → key (f x) ≡ key x)
      → IsUnique key xs
      → IsUnique key (update test f xs)
  update-IsUnique key test f [] g u = tt
  update-IsUnique key test f (x ∷ xs) g u =
      let rest = All-update {P = λ y. key y ≢ key x} test f xs (λ y k e. k (sym (g y) ∙ e)) u.0 in
      let ih = update-IsUnique key test f xs g u.1 in
      elim (Bool-cases (test x)) [ inl e ↦ rw (e, g x) (rest, ih) | inr e ↦ rw e (rest, ih) ]

  pub snoc-IsUnique :
      (key : A → ℕ) (xs : List A) (x : A)
      → has (λ y. key y == key x) xs ≡ false
      → IsUnique key xs
      → IsUnique key (xs ++ (x ∷ []))
  snoc-IsUnique key [] x h u = (tt, tt)
  snoc-IsUnique key (y ∷ ys) x h u = (other ys u.0, snoc-IsUnique key ys x (ground (arith, h)) u.1)
    where
      other :
          (zs : List A) → All (λ z. key z ≢ key y) zs → All (λ z. key z ≢ key y) (zs ++ (x ∷ []))
      other [] k = ((λ e. ground (arith, h, e)), tt)
      other (z ∷ zs) k = (k.0, other zs k.1)

  -- Rows that differ in the column from the row that is found.
  pub others :
      (key : A → ℕ) (p q : A → Bool) (xs : List A) (x : A)
      → IsUnique key xs
      → first p xs ≡ some x
      → q x ≡ false
      → All (λ y. q y ≡ true → key y ≢ key x) xs
  others key p q [] x u e h = tt
  others key p q (y ∷ ys) x u e h = elim (Bool-cases (p y)) [
    | inl k ↦
        let same : y ≡ x = some_inj (rw k at e) in
        (
          (λ t n. let c : q y ≡ false = subst (λ z. q z ≡ false) (sym same) h in cc),
          weaken ys (subst (λ z. All (λ w. key w ≢ key z) ys) same u.0),
        )
    | inr k ↦
        let found : first p ys ≡ some x = rw k at e in
        let ne = first-All (λ w. key w ≢ key y) p ys x u.0 found in
        ((λ t n. ne (sym n)), others key p q ys x u.1 found h)
  ]
    where
      weaken :
          (zs : List A) → All (λ w. key w ≢ key x) zs → All (λ w. q w ≡ true → key w ≢ key x) zs
      weaken [] h = tt
      weaken (z ∷ zs) h = ((λ t. h.0), weaken zs h.1)

  -- An update of the rows with one value in a column is not seen by a test that fails on them.
  pub first-update_other :
      (key : A → ℕ) (n : ℕ) (f : A → A) (q : A → Bool) (xs : List A)
      → All (λ y. q y ≡ true → key y ≢ n) xs
      → ((x : A) → q x ≡ false → q (f x) ≡ false)
      → first q (update (λ y. key y == n) f xs) ≡ first q xs
  first-update_other key n f q [] h g = refl
  first-update_other key n f q (x ∷ xs) h g =
      ground (arith, h.0, g x, ==_iff (key x) n, first-update_other key n f q xs h.1 g)

  -- Where at most one row passes a test, an update of that row to one that fails leaves none.
  pub first-update_last :
      (key : A → ℕ) (f : A → A) (p : A → Bool) (xs : List A) (x : A)
      → length (keep p xs) ≤ 1
      → first p xs ≡ some x
      → ((y : A) → p (f y) ≡ false)
      → first p (update (λ y. key y == key x) f xs) ≡ none
  first-update_last key f p [] x h e g = cc
  first-update_last key f p (y ∷ ys) x h e g = elim (Bool-cases (p y)) [
    | inl k ↦
        let same : y ≡ x = some_inj (rw k at e) in
        let bound = rw k at h in
        let rest = keep-none p ys (omega arith) in
        rw ((==_iff (key y) (key x)).1 (ap key same), g y)
          (first-update-none p (λ z. key z == key x) f ys (λ z _. g z) rest)
    | inr k ↦
        let ih = first-update_last key f p ys x (rw k at h) (rw k at e) g in
        ground (arith, k, g y, ih)
  ]

  -- An update that makes no row pass a test adds none to those that pass it.
  pub keep-update-le :
      (p test : A → Bool) (f : A → A) (xs : List A)
      → ((x : A) → p x ≡ false → p (f x) ≡ false)
      → length (keep p (update test f xs)) ≤ length (keep p xs)
  keep-update-le p test f [] g = omega arith
  keep-update-le p test f (x ∷ xs) g = ground (arith, g x, keep-update-le p test f xs g)

  pub has-keep : (p : A → Bool) (xs : List A) → has p xs ≡ false → length (keep p xs) ≤ 0
  has-keep p [] h = omega arith
  has-keep p (x ∷ xs) h = ground (arith, has-keep p xs)

  pub keep-snoc-le :
      (p : A → Bool) (xs : List A) (x : A)
      → length (keep p (xs ++ (x ∷ []))) ≤ length (keep p xs) + 1
  keep-snoc-le p [] x = ground arith
  keep-snoc-le p (y ∷ ys) x = ground (arith, keep-snoc-le p ys x)

  pub keep-snoc_no :
      (p : A → Bool) (xs : List A) (x : A)
      → p x ≡ false
      → length (keep p (xs ++ (x ∷ []))) ≡ length (keep p xs)
  keep-snoc_no p [] x h = ground arith
  keep-snoc_no p (y ∷ ys) x h = ground (arith, keep-snoc_no p ys x h)

  pub has-or : (p q : A → Bool) (xs : List A) → has (λ x. p x || q x) xs ≡ (has p xs || has q xs)
  has-or p q [] = refl
  has-or p q (x ∷ xs) = ground (arith, has-or p q xs)

  pub has-update :
      (p test : A → Bool) (f : A → A) (xs : List A)
      → ((x : A) → p (f x) ≡ p x)
      → has p (update test f xs) ≡ has p xs
  has-update p test f [] g = refl
  has-update p test f (x ∷ xs) g = ground (arith, g x, has-update p test f xs g)

  -- The row that is found, once it is updated.
  pub first-update_found :
      (q test : A → Bool) (f : A → A) (xs : List A) (r : A)
      → first q xs ≡ some r
      → test r ≡ true
      → ((x : A) → q (f x) ≡ q x)
      → first q (update test f xs) ≡ some (f r)
  first-update_found q test f [] r e h g = cc
  first-update_found q test f (x ∷ xs) r e h g = elim (Bool-cases (q x)) [
    | inl k ↦
        let same : x ≡ r = some_inj (rw k at e) in
        let hit : test x ≡ true = subst (λ z. test z ≡ true) (sym same) h in
        rw (hit, g x, k) (ap (λ z. some (f z)) same)
    | inr k ↦
        let ih = first-update_found q test f xs r (rw k at e) h g in
        elim (Bool-cases (test x)) [ inl t ↦ rw (t, g x, k) ih | inr t ↦ rw (t, k) ih ]
  ]

  pub has-and : (p q : A → Bool) (xs : List A) → has (λ x. p x && q x) xs ≡ has q (keep p xs)
  has-and p q [] = refl
  has-and p q (x ∷ xs) = ground (arith, has-and p q xs)

  pub keep-snoc_yes :
      (p : A → Bool) (xs : List A) (x : A)
      → p x ≡ true
      → keep p (xs ++ (x ∷ [])) ≡ keep p xs ++ (x ∷ [])
  keep-snoc_yes p [] x h = rw h refl
  keep-snoc_yes p (y ∷ ys) x h = ground (arith, keep-snoc_yes p ys x h)

  pub first-snoc :
      (p : A → Bool) (xs : List A) (x : A)
      → has p xs ≡ false
      → p x ≡ true
      → first p (xs ++ (x ∷ [])) ≡ some x
  first-snoc p [] x h e = rw e refl
  first-snoc p (y ∷ ys) x h e = ground (arith, first-snoc p ys x, h, e)
