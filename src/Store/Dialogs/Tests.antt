-- ===== src/Store/Dialogs/Tests.antt =====
-- packages/bridge/src/core/store.ts: the dialogs of sessions 5 and 6, run.
use pi_mob.Prelude.{ℕ, ◌≡◌, refl, List, [], ◌∷◌, map, arith}
use pi_mob.Store.{Store, transaction}
use pi_mob.Store.Samples.{empty_store}
use pi_mob.Store.Dialogs.{
  DialogInput, create_dialog, create_dialog_tx, insert_dialog, claim_dialog_response,
  pending_dialog_tx, expire_dialogs_tx, claim_pending,
}
use pi_mob.Store.Dialogs.Once.{Call, create, respond, calls, IsOnce, calls-IsOnce}

abbrev dialog_store : Store
dialog_store = record empty_store { sessions = 5 ∷ 6 ∷ [] }

abbrev dialog : ℕ → ℕ → DialogInput
dialog sid id = record {
  session_id = sid;
  upstream_id = id;
  method = 0;
  request = 0;
  expires_at = 200;
  dialog_id = id;
}

-- The second dialog of session 5 displaces the first one.
abbrev answers : List Call
answers =
    create (dialog 5 1)
    ∷ create (dialog 6 2)
    ∷ create (dialog 5 3)
    ∷ respond 5 1 150
    ∷ respond 5 3 150
    ∷ respond 5 3 160
    ∷ respond 6 2 200
    ∷ []

calls-IsOnce_example : IsOnce (calls dialog_store answers)
calls-IsOnce_example = calls-IsOnce dialog_store answers (λ sid. omega arith)

one_is_answered : map (λ a. a.dialog.dialog_id) (calls dialog_store answers).answered ≡ 3 ∷ []
unfolding create_dialog create_dialog_tx insert_dialog claim_dialog_response pending_dialog_tx
    expire_dialogs_tx claim_pending transaction
one_is_answered = refl
