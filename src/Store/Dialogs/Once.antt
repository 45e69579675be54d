-- ===== src/Store/Dialogs/Once.antt =====
-- packages/bridge/src/core/store.ts: runs of the operations on the dialogs of all sessions.
use pi_mob.Prelude.{
  ℕ, ◌<◌, ◌≡◌, ◌≢◌, refl, sym, ◌∙◌, ap, subst, Bool, true, false, not, ◌&&◌, ◌||◌, Option, some,
  none, List, [], ◌∷◌, ◌++◌, ◌==◌, keep, has, update, length, All, All-map, All-append, arith,
  Bool-cases, inl, inr, Result, ok, err, IsUnique, has-or, has-update, ==_iff,
}
use pi_mob.Tables.{Dialog, orphaned, expired}
use pi_mob.Store.{Store, StoreErrorCode, constraint, ◌>>◌}
use pi_mob.Store.Transactions.{Ends, Concludes, transaction-Concludes, then-Ends}
use pi_mob.Store.Dialogs.{
  DialogInput, new_dialog, create_dialog, create_dialog_tx, insert_dialog, claim_dialog_response,
  claim_pending, pending_dialog_tx, expire_dialogs_tx, expire_dialogs, pending_dialog,
  orphan_pending_dialogs, pends_in, is_overdue, is_answerable, in_state, latest, set_state,
}
use pi_mob.Store.Dialogs.Rows.{
  has_id, pends_as, OnePending, IsSpent, Settles, Settles-refl, ended-Settles, created-Settles,
  expired_rows, answered_rows, answered-Settles, answered-IsSpent, has-weaken, latest-answerable,
  latest-in_time,
}

pub data Call : Type 0 where
  create : DialogInput → Call
  -- The session, the dialog and the time of an answer.
  respond : ℕ → ℕ → ℕ → Call
  look : ℕ → ℕ → Call
  orphan : ℕ → Call
  expire : ℕ → Call

-- A dialog whose answer the caller is to pass on to the agent, and when that came.
pub record Answer : Type 0 where
  pub dialog : Dialog
  pub at : ℕ

-- The store behind a call, and the answer that it lets through.
pub record Traffic : Type 0 where
  pub store : Store
  pub answered : List Answer

abbrev from_create : {A : Type 0} → Store × A → Traffic
from_create (s, o) = record { store = s; answered = [] }

abbrev from_claim : ℕ → Store × Result StoreErrorCode Dialog → Traffic
from_claim now (s, ok d) = record { store = s; answered = record { dialog = d; at = now } ∷ [] }
from_claim now (s, err code) = record { store = s; answered = [] }

abbrev pub call : Store → Call → Traffic
call s (create input) = from_create (create_dialog s input)
call s (respond sid id now) = from_claim now (claim_dialog_response s sid id now)
call s (look sid now) = from_create (pending_dialog s sid now)
call s (orphan sid) = from_create (orphan_pending_dialogs s sid)
call s (expire now) = from_create (expire_dialogs s now)

abbrev pub calls : Store → List Call → Traffic
calls s [] = record { store = s; answered = [] }
calls s (c ∷ cs) =
    let here = call s c in
    let rest = calls here.store cs in
    record { store = rest.store; answered = here.answered ++ rest.answered }

abbrev pub id_of : Answer → ℕ
id_of a = a.dialog.dialog_id

-- What an answer finds and leaves.
abbrev Answers : ℕ → List Dialog → List Dialog → Dialog → Type 0
Answers now rows rows' d =
    Settles rows rows'
    × (has (pends_as d.dialog_id) rows ≡ true)
    × IsSpent d.dialog_id rows'
    × (now < d.expires_at)

insert-Ends :
    (d : Dialog) (s : Store) (rows : List Dialog)
    → s.dialogs ≡ update (pends_in d.session_id) (in_state orphaned) rows
    → Ends (λ t a. Settles rows t.dialogs) (insert_dialog d s)
unfolding insert_dialog
insert-Ends d s rows e =
    let same : Dialog → Bool = has_id d.dialog_id in
    let placed : Dialog → Bool =
      λ o. (o.session_id == d.session_id) && (o.upstream_id == d.upstream_id) in
    go (has (λ o. same o || placed o) s.dialogs) (has (λ n. n == d.session_id) s.sessions) (
      has-or same placed s.dialogs
      ∙ ap (λ b. b || has placed s.dialogs)
          (ap (has same) e
            ∙ has-update same (pends_in d.session_id) (in_state orphaned) rows (λ x. refl)))
  where
    go :
        (a b : Bool)
        → a ≡ (
            has (has_id d.dialog_id) rows
            || has
                (λ o. (o.session_id == d.session_id) && (o.upstream_id == d.upstream_id))
                s.dialogs)
        → Ends
            (λ t u. Settles rows t.dialogs)
            ((constraint (not a && b) >> λ t. ok (record t { dialogs = t.dialogs ++ (d ∷ []) }, tt))
              s)
    go true b h = tt
    go false false h = tt
    go false true h =
        subst (λ q. Settles rows (q ++ (d ∷ []))) (sym e)
          (created-Settles d rows (ground (arith, h)))

create-Ends :
    (input : DialogInput) (s : Store)
    → Ends (λ t d. Settles s.dialogs t.dialogs) (create_dialog_tx input s)
unfolding create_dialog_tx
create-Ends input s =
    let d = new_dialog input s.now in
    then-Ends (λ t a. Settles s.dialogs t.dialogs) (λ t a. Settles s.dialogs t.dialogs)
      (set_state (pends_in input.session_id) orphaned >> insert_dialog d) (λ t. ok (t, d)) s
      (then-Ends (λ t a. t.dialogs ≡ update (pends_in d.session_id) (in_state orphaned) s.dialogs)
        (λ t a. Settles s.dialogs t.dialogs) (set_state (pends_in input.session_id) orphaned)
        (insert_dialog d) s refl (λ a t k. insert-Ends d t s.dialogs k))
      (λ a t k. k)

claim-Ends :
    (sid id now : ℕ) (s : Store) (o : Option Dialog)
    → latest (keep (pends_in sid) (expired_rows now s.dialogs)) ≡ o
    → Ends
        (λ t d. Answers now s.dialogs t.dialogs d)
        (claim_pending id now o (record s { dialogs = expired_rows now s.dialogs }))
unfolding claim_pending
claim-Ends sid id now s none e = tt
claim-Ends sid id now s (some d) e = elim (Bool-cases (d.dialog_id == id)) [
  | inr ne ↦ rw (ne, Ends) tt
  | inl same ↦
      elim (Bool-cases (length (keep (is_answerable id now) (expired_rows now s.dialogs)) == 1)) [
        | inr ne ↦ rw (same, ne, Ends) tt
        | inl one ↦
            let rows = s.dialogs in
            let is : d.dialog_id ≡ id = (==_iff _ _).0 same in
            let early = latest-answerable sid now rows d e in
            let found = has-weaken d.dialog_id now rows early in
            let settles : Settles rows (answered_rows id now rows) = answered-Settles id now rows in
            let spent : IsSpent d.dialog_id (answered_rows id now rows) =
              subst (λ n. IsSpent d.dialog_id (answered_rows n now rows)) is
                (answered-IsSpent d.dialog_id now rows found) in
            rw (same, one, Ends) (settles, found, spent, latest-in_time sid now rows d e)
      ]
]

-- What a call does to the rows, and what it lets through.
abbrev IsSound : Store → Traffic → Type 0
IsSound s t =
    Settles s.dialogs t.store.dialogs
    × All
        (λ a.
          (has (pends_as (id_of a)) s.dialogs ≡ true)
          × IsSpent (id_of a) t.store.dialogs
          × (a.at < a.dialog.expires_at))
        t.answered

settled :
    {A : Type 0} (s : Store) (o : Store × Result StoreErrorCode A)
    → Concludes (λ t a. Settles s.dialogs t.dialogs) (λ t. t.dialogs ≡ s.dialogs) o
    → IsSound s (from_create o)
settled s (t, ok a) k = (k, tt)
settled s (t, err code) k = (subst (Settles s.dialogs) (sym k) (Settles-refl s.dialogs), tt)

answering :
    (s : Store) (now : ℕ) (o : Store × Result StoreErrorCode Dialog)
    → Concludes (λ t d. Answers now s.dialogs t.dialogs d) (λ t. t.dialogs ≡ s.dialogs) o
    → IsSound s (from_claim now o)
answering s now (t, ok d) (settles, found, spent, before) = (settles, ((found, spent, before), tt))
answering s now (t, err code) k = (subst (Settles s.dialogs) (sym k) (Settles-refl s.dialogs), tt)

call-IsSound : (s : Store) (c : Call) → IsSound s (call s c)
unfolding create_dialog claim_dialog_response pending_dialog orphan_pending_dialogs expire_dialogs
    pending_dialog_tx expire_dialogs_tx
call-IsSound s (create input) = settled s (create_dialog s input) (
    transaction-Concludes (λ t a. Settles s.dialogs t.dialogs) (λ t. t.dialogs ≡ s.dialogs)
      (create_dialog_tx input) s (λ a t p c w k. k) (λ t p c w k. k) refl
      (create-Ends input (record s { collecting = [] })))
call-IsSound s (respond sid id now) = answering s now (claim_dialog_response s sid id now) (
    transaction-Concludes (λ t d. Answers now s.dialogs t.dialogs d) (λ t. t.dialogs ≡ s.dialogs)
      (λ t.
        claim_pending id now (latest (keep (pends_in sid) (expired_rows now t.dialogs)))
          (record t { dialogs = expired_rows now t.dialogs }))
      s (λ a t p c w k. k) (λ t p c w k. k) refl
      (claim-Ends sid id now (record s { collecting = [] })
        (latest (keep (pends_in sid) (expired_rows now s.dialogs))) refl))
call-IsSound s (look sid now) = (ended-Settles (is_overdue now) expired s.dialogs refl, tt)
call-IsSound s (orphan sid) = settled s (orphan_pending_dialogs s sid) (
    transaction-Concludes (λ t a. Settles s.dialogs t.dialogs) (λ t. t.dialogs ≡ s.dialogs)
      (set_state (pends_in sid) orphaned) s (λ a t p c w k. k) (λ t p c w k. k) refl
      (ended-Settles (pends_in sid) orphaned s.dialogs refl))
call-IsSound s (expire now) = (ended-Settles (is_overdue now) expired s.dialogs refl, tt)

spent_not :
    (id other : ℕ) (rows : List Dialog)
    → IsSpent id rows
    → has (pends_as other) rows ≡ true
    → other ≢ id
spent_not id other rows (there, gone) h same =
    let bad : true ≡ false = sym h ∙ ap (λ n. has (pends_as n) rows) same ∙ gone in cc

call-apart :
    (s : Store) (t : Traffic) (id : ℕ)
    → IsSound s t
    → IsSpent id s.dialogs
    → All (λ a. id_of a ≢ id) t.answered
call-apart s t id (settles, sound) spent =
    All-map (λ a (found, after, before). spent_not id (id_of a) s.dialogs spent found) t.answered
      sound

-- A dialog that is spent is never answered.
calls-apart :
    (s : Store) (cs : List Call) (id : ℕ)
    → IsSpent id s.dialogs
    → All (λ a. id_of a ≢ id) (calls s cs).answered
calls-apart s [] id h = tt
calls-apart s (c ∷ cs) id h =
    let here = call s c in
    let sound = call-IsSound s c in
    All-append (λ a. id_of a ≢ id) here.answered (calls here.store cs).answered
      (call-apart s here id sound h) (calls-apart here.store cs id (sound.0.0 id h))

from_claim_one :
    (now : ℕ) (o : Store × Result StoreErrorCode Dialog)
    → IsUnique id_of (from_claim now o).answered
from_claim_one now (t, ok d) = (tt, tt)
from_claim_one now (t, err code) = tt

call-one : (s : Store) (c : Call) → IsUnique id_of (call s c).answered
call-one s (create input) = tt
call-one s (respond sid id now) = from_claim_one now (claim_dialog_response s sid id now)
call-one s (look sid now) = tt
call-one s (orphan sid) = tt
call-one s (expire now) = tt

joined :
    (xs ys : List Answer)
    → IsUnique id_of xs
    → All (λ a. All (λ b. id_of b ≢ id_of a) ys) xs
    → IsUnique id_of ys
    → IsUnique id_of (xs ++ ys)
joined [] ys u h v = v
joined (x ∷ xs) ys u h v =
    (All-append (λ b. id_of b ≢ id_of x) xs ys u.0 h.0, joined xs ys u.1 h.1 v)

-- What a run is to keep and to let through.
abbrev pub IsOnce : Traffic → Type 0
IsOnce t =
    OnePending t.store.dialogs
    × IsUnique id_of t.answered
    × All (λ a. a.at < a.dialog.expires_at) t.answered

-- Whatever dialogs are created, answered, looked for, orphaned and expired, at whatever times, and
-- whichever of the calls throw: no dialog is answered twice, each that is answered is answered before
-- the time at which it expires, and no session comes to have two pending dialogs. At first no session
-- has two pending dialogs.
pub calls-IsOnce : (s : Store) (cs : List Call) → OnePending s.dialogs → IsOnce (calls s cs)
calls-IsOnce s [] one = (one, tt, tt)
calls-IsOnce s (c ∷ cs) one =
    let here = call s c in
    let (settles, sound) = call-IsSound s c in
    let rest = calls here.store cs in
    let (one', unique, timely) = calls-IsOnce here.store cs (settles.1 one) in
    (
      one',
      joined here.answered rest.answered (call-one s c)
          (All-map (λ a (found, spent, before). calls-apart here.store cs (id_of a) spent)
            here.answered sound)
          unique,
      All-append (λ a. a.at < a.dialog.expires_at) here.answered rest.answered
          (All-map (λ a (found, spent, before). before) here.answered sound) timely,
    )
