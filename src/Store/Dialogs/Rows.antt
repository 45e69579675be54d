-- ===== src/Store/Dialogs/Rows.antt =====
-- packages/bridge/src/core/store.ts: what the statements on the dialogs do to those that are pending,
-- and to one that has been answered.
use pi_mob.Prelude.{
  ℕ, ◌≤◌, ◌<◌, ◌≡◌, refl, ◌∙◌, subst, Bool, true, false, ◌&&◌, some, List, [], ◌∷◌, ◌++◌, leb, ◌==◌,
  keep, has, update, length, All, arith, Bool-cases, inl, inr, has-update, keep-update-le,
  keep-snoc-le, keep-snoc_no, has-append, keep-has, some_inj, Option-cases,
}
use pi_mob.Tables.{Dialog, DialogState, responded, expired, orphaned}
use pi_mob.Store.Dialogs.{is_pending, pends_in, is_overdue, is_answerable, in_state, latest}

abbrev pub has_id : ℕ → Dialog → Bool
has_id id d = d.dialog_id == id

abbrev pub pends_as : ℕ → Dialog → Bool
pends_as id d = (d.dialog_id == id) && is_pending d.state

-- A session has one pending dialog at most.
abbrev pub OnePending : List Dialog → Type 0
OnePending rows = (sid : ℕ) → length (keep (pends_in sid) rows) ≤ 1

-- A dialog that is on the table and pending no more.
abbrev pub IsSpent : ℕ → List Dialog → Type 0
IsSpent id rows = (has (has_id id) rows ≡ true) × (has (pends_as id) rows ≡ false)

-- Rows that no dialog comes back to.
abbrev pub Settles : List Dialog → List Dialog → Type 0
Settles rows rows' =
    ((id : ℕ) → IsSpent id rows → IsSpent id rows') × (OnePending rows → OnePending rows')

pub Settles-refl : (rows : List Dialog) → Settles rows rows
Settles-refl rows = ((λ id k. k), λ k. k)

pub Settles-trans : (a b c : List Dialog) → Settles a b → Settles b c → Settles a c
Settles-trans a b c (f, g) (h, k) = ((λ id p. h id (f id p)), λ p. k (g p))

ended_no :
    (id : ℕ) (test : Dialog → Bool) (state : DialogState) (rows : List Dialog)
    → is_pending state ≡ false
    → has (pends_as id) rows ≡ false
    → has (pends_as id) (update test (in_state state) rows) ≡ false
ended_no id test state [] e h = refl
ended_no id test state (x ∷ xs) e h = ground (arith, e, h, ended_no id test state xs e)

-- An update that ends dialogs brings none back.
pub ended-Settles :
    (test : Dialog → Bool) (state : DialogState) (rows : List Dialog)
    → is_pending state ≡ false
    → Settles rows (update test (in_state state) rows)
ended-Settles test state rows e = (
  λ id (there, gone). (
    has-update (has_id id) test (in_state state) rows (λ x. refl) ∙ there,
    ended_no id test state rows e gone,
  ),
  λ one sid.
      let le =
        keep-update-le (pends_in sid) test (in_state state) rows (λ x k. ground (arith, e)) in
      omega (arith, le, one sid),
)

none_pends :
    (sid : ℕ) (rows : List Dialog)
    → length (keep (pends_in sid) (update (pends_in sid) (in_state orphaned) rows)) ≤ 0
none_pends sid [] = omega arith
none_pends sid (x ∷ xs) = ground (arith, none_pends sid xs)

distinct :
    (id new : ℕ) (rows : List Dialog)
    → has (has_id id) rows ≡ true
    → has (has_id new) rows ≡ false
    → (new == id) ≡ false
distinct id new [] h k = cc
distinct id new (x ∷ xs) h k = ground (arith, h, k, distinct id new xs)

-- A new dialog, whose id is free, takes the place of the pending one of its session.
pub created-Settles :
    (d : Dialog) (rows : List Dialog)
    → has (has_id d.dialog_id) rows ≡ false
    → Settles rows (update (pends_in d.session_id) (in_state orphaned) rows ++ (d ∷ []))
created-Settles d rows free =
    let orphans = update (pends_in d.session_id) (in_state orphaned) rows in
    let (spent, one) = ended-Settles (pends_in d.session_id) orphaned rows refl in
    (
      λ id old.
          let (there, gone) = spent id old in
          let other = distinct id d.dialog_id rows old.0 free in
          (
            has-append (has_id id) orphans (d ∷ []) ∙ ground (arith, there),
            has-append (pends_as id) orphans (d ∷ []) ∙ ground (arith, gone, other),
          ),
      λ h sid. elim (Bool-cases (d.session_id == sid)) [
        | inl e ↦
            let none : length (keep (pends_in sid) orphans) ≤ 0 =
              subst
                (λ n.
                  length
                    (keep (pends_in n) (update (pends_in d.session_id) (in_state orphaned) rows))
                  ≤ 0)
                (ground (arith, e)) (none_pends d.session_id rows) in
            let le = keep-snoc-le (pends_in sid) orphans d in omega (arith, none, le)
        | inr e ↦
            let same = keep-snoc_no (pends_in sid) orphans d (ground (arith, e)) in
            omega (arith, same, one h sid)
      ],
    )

-- The rows once those that are out of time have expired, and the one that is answered.
abbrev pub expired_rows : ℕ → List Dialog → List Dialog
expired_rows now = update (is_overdue now) (in_state expired)

abbrev pub answered_rows : ℕ → ℕ → List Dialog → List Dialog
answered_rows id now rows =
    update (is_answerable id now) (in_state responded) (expired_rows now rows)

pub answered-Settles : (id now : ℕ) (rows : List Dialog) → Settles rows (answered_rows id now rows)
answered-Settles id now rows =
    Settles-trans rows (expired_rows now rows) (answered_rows id now rows)
      (ended-Settles (is_overdue now) expired rows refl)
      (ended-Settles (is_answerable id now) responded (expired_rows now rows) refl)

answered_no :
    (id now : ℕ) (rows : List Dialog) → has (pends_as id) (answered_rows id now rows) ≡ false
answered_no id now [] = refl
answered_no id now (x ∷ xs) = ground (arith, answered_no id now xs)

pub latest-All :
    (P : Dialog → Type 0) (rows : List Dialog) (d : Dialog)
    → All P rows
    → latest rows ≡ some d
    → P d
latest-All P [] d h e = cc
latest-All P (x ∷ xs) d h e = elim (Option-cases (latest xs)) [
  | inl k ↦ subst P (some_inj (rw k at e)) h.0
  | inr (y, k) ↦ elim (Bool-cases (leb y.created_at x.created_at)) [
    | inl l ↦ subst P (some_inj (rw (k, l) at e)) h.0
    | inr l ↦ subst P (some_inj (rw (k, l) at e)) (latest-All P xs y h.1 k)
  ]
]

overdue_no :
    (id now : ℕ) (rows : List Dialog)
    → has (pends_as id) (expired_rows now rows) ≡ true
    → has (is_answerable id now) rows ≡ true
overdue_no id now [] h = cc
overdue_no id now (x ∷ xs) h = ground (arith, h, overdue_no id now xs)

-- The dialog that `pendingDialog` finds is pending and in time.
pub latest-answerable :
    (sid now : ℕ) (rows : List Dialog) (d : Dialog)
    → latest (keep (pends_in sid) (expired_rows now rows)) ≡ some d
    → has (is_answerable d.dialog_id now) rows ≡ true
latest-answerable sid now rows d e = overdue_no d.dialog_id now rows (
    latest-All (λ x. has (pends_as x.dialog_id) (expired_rows now rows) ≡ true)
      (keep (pends_in sid) (expired_rows now rows)) d
      (keep-has (pends_in sid) (λ h. pends_as h.dialog_id) (expired_rows now rows)
        (λ x k. ground (arith, k)))
      e)

in_time :
    (sid now : ℕ) (rows : List Dialog)
    → All (λ x. now < x.expires_at) (keep (pends_in sid) (expired_rows now rows))
in_time sid now [] = tt
in_time sid now (x ∷ xs) =
    let ih = in_time sid now xs in
    elim (Bool-cases (is_overdue now x)) [
      | inl late ↦
          let gone : pends_in sid (in_state expired x) ≡ false = ground arith in rw (late, gone) ih
      | inr early ↦ elim (Bool-cases (pends_in sid x)) [
        | inl e ↦
            let before : now < x.expires_at = ground (arith, early, e) in rw (early, e) (before, ih)
        | inr e ↦ rw (early, e) ih
      ]
    ]

pub latest-in_time :
    (sid now : ℕ) (rows : List Dialog) (d : Dialog)
    → latest (keep (pends_in sid) (expired_rows now rows)) ≡ some d
    → now < d.expires_at
latest-in_time sid now rows d e =
    latest-All (λ x. now < x.expires_at) (keep (pends_in sid) (expired_rows now rows)) d
      (in_time sid now rows) e

pub has-weaken :
    (id now : ℕ) (rows : List Dialog)
    → has (is_answerable id now) rows ≡ true
    → has (pends_as id) rows ≡ true
has-weaken id now [] h = cc
has-weaken id now (x ∷ xs) h = ground (arith, h, has-weaken id now xs)

pends-has_id :
    (id : ℕ) (rows : List Dialog) → has (pends_as id) rows ≡ true → has (has_id id) rows ≡ true
pends-has_id id [] h = cc
pends-has_id id (x ∷ xs) h = ground (arith, h, pends-has_id id xs)

-- A pending dialog that is answered is spent.
pub answered-IsSpent :
    (id now : ℕ) (rows : List Dialog)
    → has (pends_as id) rows ≡ true
    → IsSpent id (answered_rows id now rows)
answered-IsSpent id now rows h = (
  has-update (has_id id) (is_answerable id now) (in_state responded) (expired_rows now rows)
        (λ x. refl)
      ∙ has-update (has_id id) (is_overdue now) (in_state expired) rows (λ x. refl)
      ∙ pends-has_id id rows h,
  answered_no id now rows,
)
