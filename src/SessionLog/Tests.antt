-- ===== src/SessionLog/Tests.antt =====
-- packages/bridge/src/session-events/canonical-session-store.ts: the theorems on the log, on a session
-- with two events.
use pi_mob.Prelude.{
  ◌-◌, ◌≡◌, refl, true, none, some, [], arith, ◌==◌, Bool-cases, inl, inr, min, Run, length,
}
use pi_mob.Store.Samples.{logged_store}
use pi_mob.SessionLog.{
  SessionLog, AppendInput, append, find_source, is_unnamed, latest_sequence, read_after,
}
use pi_mob.SessionLog.Sequenced.{IsSequenced}
use pi_mob.SessionLog.Appending.{Outcome, made, is_admitted, append-Outcome, append-IsSequenced}
use pi_mob.SessionLog.Reading.{read_after-Run}

pub logged_store-IsSequenced : IsSequenced logged_store
logged_store-IsSequenced = record {
  run = λ n. elim (Bool-cases (5 == n)) [ inl e ↦ rw e (refl, (refl, tt)) | inr e ↦ rw e tt ];
  count = λ n. elim (Bool-cases (5 == n)) [ inl e ↦ rw e refl | inr e ↦ rw e refl ];
}

abbrev log : SessionLog
log = record { store = logged_store; appended_count = 2; deduplicated_count = 0; notified = [] }

abbrev input : AppendInput
input = record {
  session_id = 5;
  type = 3;
  payload = 1;
  source_event_id = none;
  event_id = none;
  occurred_at = none;
}

append-Outcome_example :
    Outcome
      (λ n. 1)
      (λ n. true)
      log
      (made (λ n. 1) (λ n. true) input 60 logged_store)
      (is_unnamed (λ n. 1) (λ n. true) none)
      (find_source (λ n. 1) (λ n. true) input logged_store none)
      (is_admitted (λ n. 1) (λ n. true) input 60 logged_store)
      (append (λ n. 1) (λ n. true) log input 60)
append-Outcome_example =
    append-Outcome (λ n. 1) (λ n. true) log input 60 logged_store-IsSequenced refl refl refl refl
      refl

append-IsSequenced_example : IsSequenced (append (λ n. 1) (λ n. true) log input 60).0.store
append-IsSequenced_example =
    append-IsSequenced (λ n. 1) (λ n. true) log input 60 logged_store-IsSequenced refl refl refl
      refl refl

read_after-Run_example :
    Run (λ r. r.sequence) 1 (read_after logged_store 5 1 (some 10))
    × (length (read_after logged_store 5 1 (some 10))
        ≡ min (min 10 4096) (latest_sequence logged_store 5 - 1))
read_after-Run_example = read_after-Run logged_store logged_store-IsSequenced 5 1 (omega arith) 10
