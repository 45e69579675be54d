-- ===== src/Store/Dialogs.antt =====
-- packages/bridge/src/core/store.ts: the dialogs that an agent's extension opens, and their answers.
-- The column `updated_at`, which nothing reads, has no model.
pub mod Rows
pub mod Once
mod Tests
use pi_mob.Prelude.{
  ℕ, Bool, true, false, not, ◌&&◌, ◌||◌, Option, none, some, List, [], ◌∷◌, ◌++◌, leb, ltb, ◌==◌,
  if◌then◌else◌, keep, has, update, Result, ok, err, length, map,
}
use pi_mob.Tables.{Dialog, DialogState, pending, responded, expired, orphaned}
use pi_mob.Store.{
  Store, Tx, transaction, StoreErrorCode, conflict, constraint, require, return, throw, ◌>>=◌, ◌>>◌,
}

abbrev pub is_pending : DialogState → Bool
is_pending pending = true
is_pending _ = false

-- `session_id=? AND state='pending'`.
abbrev pub pends_in : ℕ → Dialog → Bool
pends_in sid d = (d.session_id == sid) && is_pending d.state

-- `state='pending' AND expires_at<=?`.
abbrev pub is_overdue : ℕ → Dialog → Bool
is_overdue now d = is_pending d.state && leb d.expires_at now

-- `dialog_id=? AND state='pending' AND expires_at>?`.
abbrev pub is_answerable : ℕ → ℕ → Dialog → Bool
is_answerable id now d = (d.dialog_id == id) && (is_pending d.state && ltb now d.expires_at)

abbrev pub in_state : DialogState → Dialog → Dialog
in_state state d = record d { state = state }

-- The rows with the state set where the test holds, and the count of those.
abbrev pub set_state : (Dialog → Bool) → DialogState → Tx ℕ
set_state test state s =
    ok (record s { dialogs = update test (in_state state) s.dialogs }, length (keep test s.dialogs))

-- `expireDialogs`, which is not a transaction of its own.
expire_dialogs_tx : ℕ → Tx (List Dialog)
expire_dialogs_tx now s = ok (
  record s { dialogs = update (is_overdue now) (in_state expired) s.dialogs },
  map (in_state expired) (keep (is_overdue now) s.dialogs),
)

-- `ORDER BY created_at DESC LIMIT 1`; of rows of one time, whose order SQL leaves open, the first.
abbrev pub latest : List Dialog → Option Dialog
latest [] = none
latest (d ∷ ds) = elim (latest ds) [
  | none ↦ some d
  | some e ↦ if leb e.created_at d.created_at then some d else some e
]

-- `pendingDialog`.
pending_dialog_tx : ℕ → ℕ → Tx (Option Dialog)
pending_dialog_tx sid now =
    expire_dialogs_tx now >>= λ rows s. ok (s, latest (keep (pends_in sid) s.dialogs))

pub record DialogInput : Type 0 where
  pub session_id : ℕ
  pub upstream_id : ℕ
  pub method : ℕ
  pub request : ℕ
  pub expires_at : ℕ
  -- The id of the caller, or of `uuid()`.
  pub dialog_id : ℕ

abbrev pub new_dialog : DialogInput → ℕ → Dialog
new_dialog input now = record {
  dialog_id = input.dialog_id;
  session_id = input.session_id;
  upstream_id = input.upstream_id;
  method = input.method;
  request = input.request;
  state = pending;
  created_at = now;
  expires_at = input.expires_at;
}

-- `INSERT INTO extension_dialogs`: the key, the id of the agent in a session, and the reference to the
-- session. The agent's method is one of the four that the schema admits.
insert_dialog : Dialog → Tx (Unit {0})
insert_dialog d s =
    (constraint (
          not (
            has
              (λ o.
                (o.dialog_id == d.dialog_id)
                || ((o.session_id == d.session_id) && (o.upstream_id == d.upstream_id)))
              s.dialogs)
          && has (λ n. n == d.session_id) s.sessions)
        >> λ t. ok (record t { dialogs = t.dialogs ++ (d ∷ []) }, tt))
      s

create_dialog_tx : DialogInput → Tx Dialog
create_dialog_tx input s =
    let d = new_dialog input s.now in
    (set_state (pends_in input.session_id) orphaned >> insert_dialog d >> return d) s

-- `createDialog`.
pub create_dialog : Store → DialogInput → Store × Result StoreErrorCode Dialog
create_dialog s input = transaction (create_dialog_tx input) s

claim_pending : ℕ → ℕ → Option Dialog → Tx Dialog
claim_pending id now none = throw conflict
claim_pending id now (some d) =
    require (d.dialog_id == id) conflict
    >> set_state (is_answerable id now) responded
    >>= λ changes. require (changes == 1) conflict >> return d

-- `claimDialogResponse`.
pub claim_dialog_response : Store → ℕ → ℕ → ℕ → Store × Result StoreErrorCode Dialog
claim_dialog_response s sid id now =
    transaction (pending_dialog_tx sid now >>= claim_pending id now) s

-- `orphanPendingDialogs`.
pub orphan_pending_dialogs : Store → ℕ → Store × Result StoreErrorCode ℕ
orphan_pending_dialogs s sid = transaction (set_state (pends_in sid) orphaned) s

-- `expireDialogs` and `pendingDialog`, called outside a transaction.
pub expire_dialogs : Store → ℕ → Store × List Dialog
expire_dialogs s now = elim (expire_dialogs_tx now s) [ ok r ↦ r | err e ↦ (s, []) ]

pub pending_dialog : Store → ℕ → ℕ → Store × Option Dialog
pending_dialog s sid now = elim (pending_dialog_tx sid now s) [ ok r ↦ r | err e ↦ (s, none) ]
