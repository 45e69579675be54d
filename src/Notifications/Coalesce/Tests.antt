-- ===== src/Notifications/Coalesce/Tests.antt =====
-- packages/bridge/src/notifications: the theorems on three settled turns of one session in one minute.
use pi_mob.Prelude.{ℕ, ◌+◌, ◌≤◌, List, [], ◌∷◌, keep, length, max}
use pi_mob.Notifications.Policy.{settled, failed}
use pi_mob.Notifications.Coalesce.{
  Coalescer, DecideInput, default_coalesce_limits, key_eq, minute_of, key_of, minute_count,
}
use pi_mob.Notifications.Coalesce.Ceilings.{decide_all, decide_all-minute}
use pi_mob.Notifications.Coalesce.Sessions.{key_count, decide_all-session}

abbrev empty : Coalescer
empty = record { per_key = []; per_device_minute = []; limits = default_coalesce_limits }

abbrev settled_at : ℕ → DecideInput
settled_at now = record {
  device_id = 1;
  session_id = 2;
  kind = settled;
  notification_id = now;
  now = now;
}

abbrev inputs : List DecideInput
inputs = settled_at 1000 ∷ (record (settled_at 2000) { kind = failed } ∷ (settled_at 3000 ∷ []))

decide_all-minute_example :
    minute_count (1, 0) empty
      + length (keep (λ i. key_eq (minute_of i) (1, 0)) (decide_all empty inputs).1)
    ≤ max (minute_count (1, 0) empty) 10
decide_all-minute_example = decide_all-minute (1, 0) empty inputs

decide_all-session_example :
    key_count (1, 2) empty
      + length (keep (λ i. key_eq (key_of i) (1, 2)) (decide_all empty inputs).1)
    ≤ max (key_count (1, 2) empty) (max 1 50)
decide_all-session_example = decide_all-session (1, 2) empty inputs
