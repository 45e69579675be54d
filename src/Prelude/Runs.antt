-- ===== src/Prelude/Runs.antt =====
-- Lists sorted by a key, and runs: lists whose keys are consecutive numbers.
use Prim.Native.Nat.{ℕ, ◌+◌, ◌≤◌, ◌<◌}
use mathlib.Core.Path.{◌≡◌, refl, subst}
use mathlib.Core.Logic.{inl, inr}
use mathlib.Core.List.{List, [], ◌∷◌, ◌++◌}
use native.Mathlib.Omega.{arith}
use pi_mob.Prelude.Tests.{leb, ltb, le→leb, lt→ltb, ltb→lt, Bool-cases}
use pi_mob.Prelude.Lists.{length, keep, insert_by, sort_by, All}

module _ {ℓ} {A : Type ℓ} (key : A → ℕ) where
  abbrev pub IsSorted : List A → Type 0
  IsSorted [] = Unit
  IsSorted (x ∷ xs) = All (λ y. key x ≤ key y) xs × IsSorted xs

  pub insert_by-sorted :
      (x : A) (xs : List A) → All (λ y. key x ≤ key y) xs → insert_by key x xs ≡ x ∷ xs
  insert_by-sorted x [] h = refl
  insert_by-sorted x (y ∷ ys) h = rw (le→leb _ _ h.0)

  -- Rows that stand in order are left as they are.
  pub sort_by-sorted : (xs : List A) → IsSorted xs → sort_by key xs ≡ xs
  sort_by-sorted [] h = refl
  sort_by-sorted (x ∷ xs) h = rw (sort_by-sorted xs h.1) (insert_by-sorted x xs h.0)

  -- The numbers above `n`, as many as `k`, are the keys of the list.
  abbrev pub Run : ℕ → List A → Type 0
  Run n [] = Unit
  Run n (x ∷ xs) = (key x ≡ n + 1) × Run (n + 1) xs

  pub Run-above : (m n : ℕ) (xs : List A) → m ≤ n + 1 → Run n xs → All (λ y. m ≤ key y) xs
  Run-above m n [] h r = tt
  Run-above m n (x ∷ xs) h r = (omega arith, Run-above m (n + 1) xs (omega arith) r.1)

  pub Run-IsSorted : (n : ℕ) (xs : List A) → Run n xs → IsSorted xs
  Run-IsSorted n [] r = tt
  Run-IsSorted n (x ∷ xs) r =
      (Run-above (key x) (n + 1) xs (omega arith) r.1, Run-IsSorted (n + 1) xs r.1)

  pub Run-append : (n : ℕ) (xs ys : List A) → Run n xs → Run (n + length xs) ys → Run n (xs ++ ys)
  Run-append n [] ys r t = subst (λ m. Run m ys) (omega arith) t
  Run-append n (x ∷ xs) ys r t =
      (r.0, Run-append (n + 1) xs ys r.1 (subst (λ m. Run m ys) (omega arith) t))

  pub Run-below : (n : ℕ) (xs : List A) → Run n xs → All (λ y. key y ≤ n + length xs) xs
  Run-below n [] r = tt
  Run-below n (x ∷ xs) r =
      (omega arith, subst (λ m. All (λ y. key y ≤ m) xs) (omega arith) (Run-below (n + 1) xs r.1))

  keep_all : (n m : ℕ) (xs : List A) → m ≤ n → Run n xs → keep (λ x. ltb m (key x)) xs ≡ xs
  keep_all n m [] h r = refl
  keep_all n m (x ∷ xs) h r =
      rw (lt→ltb m (key x) (omega arith), keep_all (n + 1) m xs (omega arith) r.1)

  -- What a run holds above one of its numbers is the run from there to the same end.
  pub keep-Run :
      (n m : ℕ) (xs : List A)
      → n ≤ m
      → m ≤ n + length xs
      → Run n xs
      → Run m (keep (λ x. ltb m (key x)) xs)
        × (m + length (keep (λ x. ltb m (key x)) xs) ≡ n + length xs)
  keep-Run n m [] h k r = (tt, omega arith)
  keep-Run n m (x ∷ xs) h k r = elim (Bool-cases (ltb m (key x))) [
    | inl e ↦
        let lt : m < key x = ltb→lt m (key x) e in
        let same : n ≡ m = omega arith in
        rw (e, keep_all (n + 1) m xs (omega arith) r.1)
          ((omega arith, subst (λ k. Run (k + 1) xs) same r.1), omega arith)
    | inr e ↦
        let ge : n + 1 ≤ m = ground arith in
        let ih = keep-Run (n + 1) m xs ge (omega arith) r.1 in rw e (ih.0, omega arith)
  ]

module _ {ℓ κ} {A : Type ℓ} (key : A → ℕ) (P : A → Type κ) where
  pub insert_by-All : (x : A) (xs : List A) → P x → All P xs → All P (insert_by key x xs)
  insert_by-All x [] p h = (p, tt)
  insert_by-All x (y ∷ ys) p h = elim (Bool-cases (leb (key x) (key y))) [
    | inl e ↦ rw e (p, h)
    | inr e ↦ rw e (h.0, insert_by-All x ys p h.1)
  ]

  pub sort_by-All : (xs : List A) → All P xs → All P (sort_by key xs)
  sort_by-All [] h = tt
  sort_by-All (x ∷ xs) h = insert_by-All x (sort_by key xs) h.0 (sort_by-All xs h.1)
