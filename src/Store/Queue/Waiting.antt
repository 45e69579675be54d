-- ===== src/Store/Queue/Waiting.antt =====
-- packages/bridge/src/core/store.ts: the messages that wait in a session's queue, by their position,
-- once a statement of the store has changed the rows.
use pi_mob.Prelude.{
  ℕ, ◌+◌, ◌≤◌, ◌≡◌, ◌≢◌, refl, sym, ap, ◌∙◌, subst, Bool, true, false, not, List, [], ◌∷◌, ◌++◌,
  ◌==◌, keep, has, length, update, sort_by, All, All-map, All-keep, arith, Bool-cases, inl, inr,
  IsUnique, first, first_test, some, others, sort_by-snoc, sort_by-IsUnique, keep-IsUnique,
  keep-each, keep-has, keep-tail, keep-sort_by, keep-snoc_yes, sort_by-All, ==_of_ne,
}
use pi_mob.Tables.{QueueItem, dispatching}
use pi_mob.Store.Queue.{
  waits_in, waits_as, is_dispatched_as, list_follow_ups, last_position, in_state,
}

abbrev pub id_of : QueueItem → ℕ
id_of item = item.queue_item_id

abbrev pub is_other : ℕ → QueueItem → Bool
is_other id item = not (item.queue_item_id == id)

waits_before :
    (sid : ℕ) (rows : List QueueItem)
    → All (λ item. item.position ≤ last_position sid rows) (keep (waits_in sid) rows)
waits_before sid [] = tt
waits_before sid (x ∷ xs) =
    let ih = waits_before sid xs in
    let weaker =
      All-map {Q = λ item. item.position ≤ last_position sid (x ∷ xs)} (λ y k. ground (arith, k))
        (keep (waits_in sid) xs) ih in
    elim (Bool-cases (waits_in sid x)) [
      | inl e ↦
          let le : x.position ≤ last_position sid (x ∷ xs) = ground (arith, e) in rw e (le, weaker)
      | inr e ↦ rw e weaker
    ]

-- A message that is filed behind the last position of its session waits behind the others of it.
pub list_follow_ups-snoc :
    (sid : ℕ) (rows : List QueueItem) (item : QueueItem)
    → waits_in sid item ≡ true
    → item.position ≡ last_position sid rows + 1
    → list_follow_ups sid (rows ++ (item ∷ [])) ≡ list_follow_ups sid rows ++ (item ∷ [])
list_follow_ups-snoc sid rows item w e = rw (keep-snoc_yes (waits_in sid) rows item w) (
    sort_by-snoc (λ o. o.position) (keep (waits_in sid) rows) item
      (All-map (λ o k. omega (arith, e)) (keep (waits_in sid) rows) (waits_before sid rows)))

keep-snoc_other :
    (sid : ℕ) (rows : List QueueItem) (item : QueueItem)
    → waits_in sid item ≡ false
    → keep (waits_in sid) (rows ++ (item ∷ [])) ≡ keep (waits_in sid) rows
keep-snoc_other sid [] item w = rw w
keep-snoc_other sid (x ∷ xs) item w = ground (arith, keep-snoc_other sid xs item w)

pub list_follow_ups-snoc_other :
    (sid : ℕ) (rows : List QueueItem) (item : QueueItem)
    → waits_in sid item ≡ false
    → list_follow_ups sid (rows ++ (item ∷ [])) ≡ list_follow_ups sid rows
list_follow_ups-snoc_other sid rows item w =
    ap (sort_by (λ o. o.position)) (keep-snoc_other sid rows item w)

-- The rows that wait once those of an id have been taken or deleted.
pub taken :
    (sid id : ℕ) (rows : List QueueItem)
    → keep (waits_in sid) (update (waits_as id) (in_state dispatching) rows)
      ≡ keep (is_other id) (keep (waits_in sid) rows)
taken sid id [] = refl
taken sid id (x ∷ xs) = ground (arith, taken sid id xs)

pub deleted :
    (sid id : ℕ) (rows : List QueueItem)
    → keep (waits_in sid) (keep (λ item. not (item.queue_item_id == id)) rows)
      ≡ keep (is_other id) (keep (waits_in sid) rows)
deleted sid id [] = refl
deleted sid id (x ∷ xs) = ground (arith, deleted sid id xs)

-- A row of the queue and a row that waits in another one differ in their ids.
apart :
    (p : QueueItem → Bool) (rows : List QueueItem)
    → IsUnique id_of rows
    → All (λ h. All (λ y. p y ≡ false → id_of y ≢ id_of h) rows) (keep p rows)
apart p [] u = tt
apart p (x ∷ xs) u =
    let ih = apart p xs u.1 in
    elim (Bool-cases (p x)) [
      | inl e ↦
          let here : All (λ y. p y ≡ false → id_of y ≢ id_of x) (x ∷ xs) =
            ((λ f. let bad : true ≡ false = sym e ∙ f in cc), All-map (λ y ne f. ne) xs u.0) in
          let there : All (λ h. All (λ y. p y ≡ false → id_of y ≢ id_of h) (x ∷ xs)) (keep p xs) =
            later (keep p xs) ih (All-keep (λ y. id_of y ≢ id_of x) p xs u.0) in
          let split : x ∷ keep p xs ≡ keep p (x ∷ xs) = rw e refl in
          subst (All (λ h. All (λ y. p y ≡ false → id_of y ≢ id_of h) (x ∷ xs))) split (here, there)
      | inr e ↦
          let split : keep p xs ≡ keep p (x ∷ xs) = rw e refl in
          subst (All (λ h. All (λ y. p y ≡ false → id_of y ≢ id_of h) (x ∷ xs))) split
            (later (keep p xs) ih (All-keep (λ y. id_of y ≢ id_of x) p xs u.0))
    ]
  where
    later :
        (ys : List QueueItem)
        → All (λ h. All (λ y. p y ≡ false → id_of y ≢ id_of h) xs) ys
        → All (λ y. id_of y ≢ id_of x) ys
        → All (λ h. All (λ y. p y ≡ false → id_of y ≢ id_of h) (x ∷ xs)) ys
    later [] h k = tt
    later (y ∷ ys) h k = (((λ f e. k.0 (sym e)), h.0), later ys h.1 k.1)

-- Where ids are unique, taking the first message of a queue leaves the others in their order,
pub list_follow_ups-taken :
    (sid : ℕ) (rows : List QueueItem) (h : QueueItem) (t : List QueueItem)
    → IsUnique id_of rows
    → list_follow_ups sid rows ≡ h ∷ t
    → list_follow_ups sid (update (waits_as h.queue_item_id) (in_state dispatching) rows) ≡ t
list_follow_ups-taken sid rows h t u e =
    let id = h.queue_item_id in
    let unique : IsUnique id_of (h ∷ t) = subst (IsUnique id_of) e (
      sort_by-IsUnique (λ o. o.position) id_of (keep (waits_in sid) rows)
        (keep-IsUnique id_of (waits_in sid) rows u)) in
    ap (sort_by (λ o. o.position)) (taken sid id rows)
    ∙ sym (keep-sort_by (λ o. o.position) (is_other id) (keep (waits_in sid) rows))
    ∙ ap (keep (is_other id)) e
    ∙ keep-tail id_of h t unique

not_here :
    (sid other : ℕ) (x : QueueItem) → sid ≢ other → waits_in other x ≡ true → waits_in sid x ≡ false
not_here sid other x ne w = ground (arith, ne, w)

-- and leaves the queues of other sessions as they are.
pub list_follow_ups-taken_other :
    (sid other : ℕ) (rows : List QueueItem) (h : QueueItem) (t : List QueueItem)
    → IsUnique id_of rows
    → sid ≢ other
    → list_follow_ups sid rows ≡ h ∷ t
    → list_follow_ups other (update (waits_as h.queue_item_id) (in_state dispatching) rows)
      ≡ list_follow_ups other rows
list_follow_ups-taken_other sid other rows h t u ne e =
    let id = h.queue_item_id in
    let sorted =
      sort_by-All (λ o. o.position)
        (λ z. All (λ y. waits_in sid y ≡ false → id_of y ≢ id_of z) rows) (keep (waits_in sid) rows)
        (apart (waits_in sid) rows u) in
    let far : All (λ y. waits_in sid y ≡ false → id_of y ≢ id) rows =
      (subst (All (λ z. All (λ y. waits_in sid y ≡ false → id_of y ≢ id_of z) rows)) e sorted).0 in
    ap (sort_by (λ o. o.position)) (taken other id rows ∙ untouched rows far)
  where
    untouched :
        (ys : List QueueItem)
        → All (λ y. waits_in sid y ≡ false → id_of y ≢ id_of h) ys
        → keep (is_other h.queue_item_id) (keep (waits_in other) ys) ≡ keep (waits_in other) ys
    untouched [] k = refl
    untouched (y ∷ ys) k = elim (Bool-cases (waits_in other y)) [
      | inl w ↦ rw (w, ==_of_ne _ _ (k.0 (not_here sid other y ne w)), untouched ys k.1)
      | inr w ↦ rw (w, untouched ys k.1)
    ]

-- Deleting the message that is under way leaves all queues as they are.
pub list_follow_ups-finished :
    (sid id : ℕ) (rows : List QueueItem) (row : QueueItem)
    → IsUnique id_of rows
    → first (is_dispatched_as id) rows ≡ some row
    → list_follow_ups sid (keep (λ item. not (item.queue_item_id == id)) rows)
      ≡ list_follow_ups sid rows
list_follow_ups-finished sid id rows row u e =
    let hit = first_test (is_dispatched_as id) rows row e in
    let same : id_of row ≡ id = ground (arith, hit) in
    let asleep : waits_in sid row ≡ false = ground (arith, hit) in
    ap (sort_by (λ o. o.position)) (
      deleted sid id rows
      ∙ untouched rows (
          subst (λ n. All (λ y. waits_in sid y ≡ true → id_of y ≢ n) rows) same
            (others id_of (is_dispatched_as id) (waits_in sid) rows row u e asleep)))
  where
    untouched :
        (ys : List QueueItem)
        → All (λ y. waits_in sid y ≡ true → id_of y ≢ id) ys
        → keep (is_other id) (keep (waits_in sid) ys) ≡ keep (waits_in sid) ys
    untouched [] k = refl
    untouched (y ∷ ys) k = elim (Bool-cases (waits_in sid y)) [
      | inl w ↦ rw (w, ==_of_ne _ _ (k.0 w), untouched ys k.1)
      | inr w ↦ rw (w, untouched ys k.1)
    ]

none_left :
    (id : ℕ) (rows : List QueueItem)
    → All (λ y. id_of y ≢ id) rows
    → length (keep (waits_as id) rows) ≡ 0
none_left id [] h = refl
none_left id (x ∷ xs) h = ground (arith, ==_of_ne (id_of x) id h.0, none_left id xs h.1)

one_row :
    (id : ℕ) (rows : List QueueItem)
    → IsUnique id_of rows
    → has (waits_as id) rows ≡ true
    → length (keep (waits_as id) rows) ≡ 1
one_row id [] u h = cc
one_row id (x ∷ xs) u h = elim (Bool-cases (waits_as id x)) [
  | inl e ↦
      let same : id_of x ≡ id = ground (arith, e) in
      let none = none_left id xs (subst (λ n. All (λ y. id_of y ≢ n) xs) same u.0) in
      rw (e, none) refl
  | inr e ↦
      let rest : has (waits_as id) xs ≡ true = rw e at h in rw (e, one_row id xs u.1 rest) refl
]

-- The update that claims the first message of a queue changes one row.
abbrev pub ChangesOne : List QueueItem → List QueueItem → Type 0
ChangesOne rows [] = Unit
ChangesOne rows (h ∷ t) = length (keep (waits_as h.queue_item_id) rows) ≡ 1

pub list_follow_ups-ChangesOne :
    (sid : ℕ) (rows : List QueueItem)
    → IsUnique id_of rows
    → ChangesOne rows (list_follow_ups sid rows)
list_follow_ups-ChangesOne sid rows u = go (list_follow_ups sid rows) (
    sort_by-All (λ o. o.position) (λ h. has (waits_as h.queue_item_id) rows ≡ true)
      (keep (waits_in sid) rows)
      (keep-has (waits_in sid) (λ h. waits_as h.queue_item_id) rows (λ x k. ground (arith, k))))
  where
    go :
        (items : List QueueItem)
        → All (λ h. has (waits_as h.queue_item_id) rows ≡ true) items
        → ChangesOne rows items
    go [] k = tt
    go (h ∷ t) k = one_row h.queue_item_id rows u k.0

-- The first message of a queue waits in it.
pub list_follow_ups-waits :
    (sid : ℕ) (rows : List QueueItem) (h : QueueItem) (t : List QueueItem)
    → list_follow_ups sid rows ≡ h ∷ t
    → waits_in sid h ≡ true
list_follow_ups-waits sid rows h t e =
    (subst (All (λ x. waits_in sid x ≡ true)) e (
      sort_by-All (λ o. o.position) (λ x. waits_in sid x ≡ true) (keep (waits_in sid) rows)
        (keep-each (waits_in sid) rows))).0
