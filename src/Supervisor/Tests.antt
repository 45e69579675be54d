-- ===== src/Supervisor/Tests.antt =====
-- packages/bridge/src/core/process-supervisor.ts: the theorems on a session whose process exits.
use pi_mob.Prelude.{ℕ, false, none, some, [], ◌∷◌}
use pi_mob.Supervisor.{Entry, Supervisor, idle, stopped, running, no_attention, default_options}

abbrev entry : Entry
entry = record {
  session_id = 1;
  state = running;
  attention = no_attention;
  process = some 5;
  spec = some 6;
  last_activity_at = 10;
  restart_timestamps = 100 ∷ 900 ∷ [];
  retry_at = none;
  forced_cleanup = false;
}

-- Two idle sessions on a host with room for two, and one to start.
abbrev idle_entry : (id since : ℕ) → Entry
idle_entry id since = record entry { session_id = id; state = idle; last_activity_at = since }

abbrev busy : Supervisor
busy = record {
  options = record default_options { capacity = 2 };
  entries =
      idle_entry 1 70
      ∷ (idle_entry 2 40 ∷ (record entry { session_id = 3; state = stopped; process = none } ∷ []));
  draining = false;
}
