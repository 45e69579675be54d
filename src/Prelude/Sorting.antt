-- ===== src/Prelude/Sorting.antt =====
-- What `ORDER BY` does with the rows of a statement: one that is behind all others, and those that
-- are taken out.
use Prim.Native.Nat.{ℕ, ◌≤◌}
use mathlib.Core.Path.{◌≡◌, refl, sym, ap, subst}
use mathlib.Core.Logic.{◌≢◌, inl, inr}
use mathlib.Core.Bool.{Bool, true, false, not}
use mathlib.Core.List.{List, [], ◌∷◌, ◌++◌}
use native.Mathlib.Omega.{arith}
use pi_mob.Prelude.Tests.{leb, ◌==◌, le→leb, leb→le, Bool-cases, ==_of_ne, ==_refl}
use pi_mob.Prelude.Lists.{length, keep, has, insert_by, sort_by, All, All-map, All-keep}
use pi_mob.Prelude.Runs.{IsSorted, insert_by-sorted, insert_by-All, sort_by-All}
use pi_mob.Prelude.Rows.{IsUnique}

module _ {ℓ} {A : Type ℓ} (key : A → ℕ) where
  insert_by-snoc :
      (x z : A) (xs : List A)
      → key x ≤ key z
      → insert_by key x (xs ++ (z ∷ [])) ≡ insert_by key x xs ++ (z ∷ [])
  insert_by-snoc x z [] h = rw (le→leb _ _ h)
  insert_by-snoc x z (y ∷ ys) h = elim (Bool-cases (leb (key x) (key y))) [
    | inl e ↦ rw e
    | inr e ↦ rw (e, insert_by-snoc x z ys h)
  ]

  -- A row behind all others comes last.
  pub sort_by-snoc :
      (xs : List A) (z : A)
      → All (λ x. key x ≤ key z) xs
      → sort_by key (xs ++ (z ∷ [])) ≡ sort_by key xs ++ (z ∷ [])
  sort_by-snoc [] z h = refl
  sort_by-snoc (x ∷ xs) z h = rw (sort_by-snoc xs z h.1) (insert_by-snoc x z (sort_by key xs) h.0)

  insert_by-IsSorted : (x : A) (xs : List A) → IsSorted key xs → IsSorted key (insert_by key x xs)
  insert_by-IsSorted x [] h = (tt, tt)
  insert_by-IsSorted x (y ∷ ys) h = elim (Bool-cases (leb (key x) (key y))) [
    | inl e ↦
        let le : key x ≤ key y = leb→le _ _ e in rw e ((le, All-map (λ z k. omega arith) ys h.0), h)
    | inr e ↦
        let le : key y ≤ key x = ground arith in
        rw e (insert_by-All key (λ z. key y ≤ key z) x ys le h.0, insert_by-IsSorted x ys h.1)
  ]

  pub sort_by-IsSorted : (xs : List A) → IsSorted key (sort_by key xs)
  sort_by-IsSorted [] = tt
  sort_by-IsSorted (x ∷ xs) = insert_by-IsSorted x (sort_by key xs) (sort_by-IsSorted xs)

  keep-insert_by_no :
      (p : A → Bool) (x : A) (xs : List A) → p x ≡ false → keep p (insert_by key x xs) ≡ keep p xs
  keep-insert_by_no p x [] h = rw h
  keep-insert_by_no p x (y ∷ ys) h = elim (Bool-cases (leb (key x) (key y))) [
    | inl e ↦ rw (e, h)
    | inr e ↦ rw (e, keep-insert_by_no p x ys h)
  ]

  keep-insert_by_yes :
      (p : A → Bool) (x : A) (xs : List A)
      → p x ≡ true
      → IsSorted key xs
      → keep p (insert_by key x xs) ≡ insert_by key x (keep p xs)
  keep-insert_by_yes p x [] h s = rw h
  keep-insert_by_yes p x (y ∷ ys) h s = elim (Bool-cases (leb (key x) (key y))) [
    | inl e ↦
        let le : key x ≤ key y = leb→le _ _ e in
        let above : All (λ z. key x ≤ key z) (y ∷ ys) = (le, All-map (λ z k. omega arith) ys s.0) in
        let below =
          insert_by-sorted key x (keep p (y ∷ ys))
            (All-keep (λ z. key x ≤ key z) p (y ∷ ys) above) in
        rw (e, h) (sym below)
    | inr e ↦ elim (Bool-cases (p y)) [
      | inl k ↦ rw (e, k, keep-insert_by_yes p x ys h s.1, e)
      | inr k ↦ rw (e, k, keep-insert_by_yes p x ys h s.1)
    ]
  ]

  -- Rows are in the same order whether some are taken out before or after they are sorted.
  pub keep-sort_by :
      (p : A → Bool) (xs : List A) → keep p (sort_by key xs) ≡ sort_by key (keep p xs)
  keep-sort_by p [] = refl
  keep-sort_by p (x ∷ xs) = elim (Bool-cases (p x)) [
    | inl k ↦
        rw (k, keep-insert_by_yes p x (sort_by key xs) k (sort_by-IsSorted xs), keep-sort_by p xs)
    | inr k ↦ rw (k, keep-insert_by_no p x (sort_by key xs) k, keep-sort_by p xs)
  ]

  insert_by-IsUnique :
      (column : A → ℕ) (x : A) (xs : List A)
      → All (λ y. column y ≢ column x) xs
      → IsUnique column xs
      → IsUnique column (insert_by key x xs)
  insert_by-IsUnique column x [] h u = (tt, tt)
  insert_by-IsUnique column x (y ∷ ys) h u = elim (Bool-cases (leb (key x) (key y))) [
    | inl e ↦ rw e (h, u)
    | inr e ↦ rw e (
      insert_by-All key (λ z. column z ≢ column y) x ys (λ k. h.0 (sym k)) u.0,
      insert_by-IsUnique column x ys h.1 u.1,
    )
  ]

  -- A column stays unique when rows are sorted.
  pub sort_by-IsUnique :
      (column : A → ℕ) (xs : List A) → IsUnique column xs → IsUnique column (sort_by key xs)
  sort_by-IsUnique column [] u = tt
  sort_by-IsUnique column (x ∷ xs) u =
      insert_by-IsUnique column x (sort_by key xs)
        (sort_by-All key (λ y. column y ≢ column x) xs u.0) (sort_by-IsUnique column xs u.1)

module _ {ℓ} {A : Type ℓ} where
  -- A column stays unique when rows are taken out.
  pub keep-IsUnique :
      (column : A → ℕ) (p : A → Bool) (xs : List A)
      → IsUnique column xs
      → IsUnique column (keep p xs)
  keep-IsUnique column p [] u = tt
  keep-IsUnique column p (x ∷ xs) u =
      let ih = keep-IsUnique column p xs u.1 in
      elim (Bool-cases (p x)) [
        | inl e ↦ rw e (All-keep (λ y. column y ≢ column x) p xs u.0, ih)
        | inr e ↦ rw e ih
      ]

  -- Rows that all pass are left as they are.
  pub keep-All : (p : A → Bool) (xs : List A) → All (λ x. p x ≡ true) xs → keep p xs ≡ xs
  keep-All p [] h = refl
  keep-All p (x ∷ xs) h = rw (h.0, keep-All p xs h.1)

  -- Where a column is unique, the rows but the first are those that differ from it there.
  pub keep-tail :
      (column : A → ℕ) (x : A) (xs : List A)
      → IsUnique column (x ∷ xs)
      → keep (λ y. not (column y == column x)) (x ∷ xs) ≡ xs
  keep-tail column x xs u = rw (==_refl (column x)) (
      keep-All (λ y. not (column y == column x)) xs
        (All-map {Q = λ y. not (column y == column x) ≡ true}
          (λ y ne. ap not (==_of_ne (column y) (column x) ne)) xs u.0))

  -- Rows that are kept pass the test,
  pub keep-each : (p : A → Bool) (xs : List A) → All (λ x. p x ≡ true) (keep p xs)
  keep-each p [] = tt
  keep-each p (x ∷ xs) = elim (Bool-cases (p x)) [
    | inl e ↦
        let split : x ∷ keep p xs ≡ keep p (x ∷ xs) = rw e refl in
        subst (All (λ y. p y ≡ true)) split (e, keep-each p xs)
    | inr e ↦
        let split : keep p xs ≡ keep p (x ∷ xs) = rw e refl in
        subst (All (λ y. p y ≡ true)) split (keep-each p xs)
  ]

  -- and are among the rows.
  pub keep-has :
      (p : A → Bool) (q : A → A → Bool) (xs : List A)
      → ((x : A) → p x ≡ true → q x x ≡ true)
      → All (λ h. has (q h) xs ≡ true) (keep p xs)
  keep-has p q [] g = tt
  keep-has p q (x ∷ xs) g =
      let ih =
        All-map {Q = λ h. has (q h) (x ∷ xs) ≡ true} (λ y k. ground (arith, k)) (keep p xs)
          (keep-has p q xs g) in
      elim (Bool-cases (p x)) [
        | inl e ↦
            let here : has (q x) (x ∷ xs) ≡ true = ground (arith, g x e) in
            let split : x ∷ keep p xs ≡ keep p (x ∷ xs) = rw e refl in
            subst (All (λ h. has (q h) (x ∷ xs) ≡ true)) split (here, ih)
        | inr e ↦
            let split : keep p xs ≡ keep p (x ∷ xs) = rw e refl in
            subst (All (λ h. has (q h) (x ∷ xs) ≡ true)) split ih
      ]

  none_with :
      (column : A → ℕ) (n : ℕ) (xs : List A)
      → All (λ y. column y ≢ n) xs
      → length (keep (λ y. column y == n) xs) ≤ 0
  none_with column n [] h = omega arith
  none_with column n (x ∷ xs) h =
      ground (arith, ==_of_ne (column x) n h.0, none_with column n xs h.1)

  -- A unique column has a value once at most.
  pub IsUnique-le :
      (column : A → ℕ) (n : ℕ) (xs : List A)
      → IsUnique column xs
      → length (keep (λ y. column y == n) xs) ≤ 1
  IsUnique-le column n [] u = omega arith
  IsUnique-le column n (x ∷ xs) u = elim (Bool-cases (column x == n)) [
    | inl e ↦
        let same : column x ≡ n = ground (arith, e) in
        let none = none_with column n xs (subst (λ m. All (λ y. column y ≢ m) xs) same u.0) in
        rw e (omega (arith, none))
    | inr e ↦ rw e (IsUnique-le column n xs u.1)
  ]
