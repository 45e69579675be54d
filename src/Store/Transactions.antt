-- ===== src/Store/Transactions.antt =====
-- packages/bridge/src/core/store.ts: what a transaction keeps, committed, rolled back or refused.
use pi_mob.Prelude.{
  ◌≡◌, Bool, true, false, List, [], ◌++◌, Result, ok, err, Bool-cases, inl, inr, ◌⊎◌, sym, subst,
}
use pi_mob.Tables.{StoredEvent}
use pi_mob.Store.{
  Store, Tx, Fault, store_error, broken_constraint, conclude, transaction, readonly, StoreErrorCode,
  ◌>>=◌, ◌>>◌,
}

-- A property of the store where a body does not throw.
abbrev pub Keeps : (Store → Type 0) → {A : Type 0} → Result Fault (Store × A) → Type 0
Keeps P (ok (s, a)) = P s
Keeps P (err e) = Unit

-- A property that does not depend on the flags of the store and on the events in flight.
abbrev pub IsDurable : (Store → Type 0) → Type 0
IsDurable P =
    (s : Store) (published collecting : List StoredEvent) (w : Bool)
    → P s
    → P (record s { published = published; collecting = collecting; writable = w })

pub transaction-cases :
    {A : Type 0} (body : Tx A) (s : Store)
    → (transaction body s ≡ (s, err readonly))
      ⊎ (transaction body s ≡ conclude s (body (record s { collecting = [] })))
unfolding transaction
transaction-cases body s = elim (Bool-cases s.writable) [
  | inl w ↦ elim (Bool-cases s.maintenance) [
    | inl m ↦ inl (simp (w, m))
    | inr m ↦ inr (simp (w, m))
  ]
  | inr w ↦ inl (simp w)
]

-- A transaction on a store that takes writes runs its body.
pub transaction-open :
    {A : Type 0} (body : Tx A) (s : Store)
    → s.writable ≡ true
    → s.maintenance ≡ false
    → transaction body s ≡ conclude s (body (record s { collecting = [] }))
unfolding transaction
transaction-open body s w m = simp (w, m)

module _ (P : Store → Type 0) (stable : IsDurable P) where
  conclude-keeps :
      {A : Type 0} (s : Store) (o : Result Fault (Store × A)) → P s → Keeps P o → P (conclude s o).0
  conclude-keeps s (ok (s', a)) p k = stable s' (s'.published ++ s'.collecting) [] s'.writable k
  conclude-keeps s (err (store_error code)) p k = p
  conclude-keeps s (err broken_constraint) p k = stable s s.published s.collecting false p

  -- A transaction keeps what its body keeps, also where it is rolled back or refused.
  pub transaction-keeps :
      {A : Type 0} (body : Tx A) (s : Store)
      → ((t : Store) → P t → Keeps P (body t))
      → P s
      → P (transaction body s).0
  transaction-keeps body s keep p = elim (transaction-cases body s) [
    | inl e ↦ subst (λ o. P o.0) (sym e) p
    | inr e ↦
        subst (λ o. P o.0) (sym e)
          (conclude-keeps s (body (record s { collecting = [] })) p
            (keep (record s { collecting = [] }) (stable s s.published [] s.writable p)))
  ]

-- A property of the store and the value where a body does not throw.
abbrev pub Ends : {A : Type 0} → (Store → A → Type 0) → Result Fault (Store × A) → Type 0
Ends Q (ok (s, a)) = Q s a
Ends Q (err e) = Unit

module _ {A B : Type 0} where
  pub bind-Ends :
      (P : Store → A → Type 0) (Q : Store → B → Type 0) (m : Tx A) (f : A → Tx B) (s : Store)
      → Ends P (m s)
      → ((a : A) (t : Store) → P t a → Ends Q (f a t))
      → Ends Q ((m >>= f) s)
  bind-Ends P Q m f s h g = go (m s) h
    where
      go :
          (o : Result Fault (Store × A))
          → Ends P o
          → Ends Q (elim o [ ok (t, a) ↦ f a t | err e ↦ err e ])
      go (ok (t, a)) k = g a t k
      go (err e) k = tt

  pub then-Ends :
      (P : Store → A → Type 0) (Q : Store → B → Type 0) (m : Tx A) (f : Tx B) (s : Store)
      → Ends P (m s)
      → ((a : A) (t : Store) → P t a → Ends Q (f t))
      → Ends Q ((m >> f) s)
  then-Ends P Q m f s h g = go (m s) h
    where
      go :
          (o : Result Fault (Store × A))
          → Ends P o
          → Ends Q (elim o [ ok (t, a) ↦ f t | err e ↦ err e ])
      go (ok (t, a)) k = g a t k
      go (err e) k = tt

pub Keeps-Ends :
    {A : Type 0} (P : Store → Type 0) (o : Result Fault (Store × A))
    → Keeps P o
    → Ends (λ s a. P s) o
Keeps-Ends P (ok (s, a)) k = k
Keeps-Ends P (err e) k = tt

-- What is true of the store and the value of a transaction that commits, and of the store behind one
-- that fails or is refused.
abbrev pub Concludes :
    {A : Type 0}
    → (Store → A → Type 0)
    → (Store → Type 0)
    → Store × Result StoreErrorCode A
    → Type 0
Concludes Q F (t, ok a) = Q t a
Concludes Q F (t, err code) = F t

pub transaction-Concludes :
    {A : Type 0} (Q : Store → A → Type 0) (F : Store → Type 0) (body : Tx A) (s : Store)
    → ((a : A) → IsDurable (λ t. Q t a))
    → IsDurable F
    → F s
    → Ends Q (body (record s { collecting = [] }))
    → Concludes Q F (transaction body s)
transaction-Concludes {A = A} Q F body s stable kept f h = elim (transaction-cases body s) [
  | inl e ↦ subst (Concludes Q F) (sym e) f
  | inr e ↦ subst (Concludes Q F) (sym e) (go (body (record s { collecting = [] })) h)
]
  where
    go : (o : Result Fault (Store × A)) → Ends Q o → Concludes Q F (conclude s o)
    go (ok (t, a)) k = stable a t (t.published ++ t.collecting) [] t.writable k
    go (err (store_error code)) k = f
    go (err broken_constraint) k = kept s s.published s.collecting false f
