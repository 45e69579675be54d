-- ===== src/Supervisor/Starting.antt =====
-- packages/bridge/src/core/process-supervisor.ts: start in its parts, unexpected exits, retries and
-- the restoration after a reboot.
use pi_mob.Prelude.{
  ℕ, ◌+◌, Bool, true, false, not, ◌&&◌, Option, none, some, List, [], ◌∷◌, ◌++◌, leb, ◌==◌,
  if◌then◌else◌, first, keep, sort_by, is_some, length, map,
}
use pi_mob.Supervisor.{
  ProcessState, stopped, starting, idle, retry_wait, crashed, crash_loop, incompatible, state_eq,
  needs_none, SupervisorError, not_found, invalid_state, host_capacity, host_draining,
  in_crash_loop, Entry, Options, Supervisor, is_active, move, and_then, has_id, run_on, occupies,
}

abbrev pub can_start : ProcessState → Bool
can_start stopped = true
can_start crashed = true
can_start retry_wait = true
can_start _ = false

abbrev pub is_victim : ℕ → Entry → Bool
is_victim id e = state_eq e.state idle && (needs_none e.attention && not (e.session_id == id))

-- What `start` does first: it creates the process, it stops another to make room, or it throws.
pub data Admission : Type 0 where
  admitted : Admission
  evicts : ℕ → Admission
  refused : SupervisorError → Admission

abbrev pub evict_first : List Entry → Admission
evict_first [] = refused host_capacity
evict_first (e ∷ es) = evicts e.session_id

abbrev pub admit_found : Supervisor → ℕ → Option Entry → Admission
admit_found s id none = refused not_found
admit_found s id (some e) =
    if s.draining
    then refused host_draining
    else if state_eq e.state crash_loop
    then refused in_crash_loop
    else if not (can_start e.state)
    then refused invalid_state
    else if leb s.options.capacity
        (length (keep (λ o. not (o.session_id == id) && occupies o) s.entries))
    then evict_first (sort_by (λ o. o.last_activity_at) (keep (is_victim id) s.entries))
    else admitted

unfoldable pub admit_start : Supervisor → ℕ → Admission
admit_start s id = admit_found s id (first (has_id id) s.entries)

-- `start`, from the admission or the end of the eviction to the await of the process.
pub create_process : Supervisor → (id spec process : ℕ) → Supervisor × Option SupervisorError
create_process s id spec process =
    run_on id (λ e. move starting (record e { spec = some spec; process = some process })) s

-- `start`, after the await of a process that started, and after one that did not.
pub started : Supervisor → (id now : ℕ) → Supervisor × Option SupervisorError
started s id now = run_on id (λ e. move idle (record e { last_activity_at = now })) s

pub start_failed : Supervisor → ℕ → Supervisor × Option SupervisorError
start_failed s id = run_on id (λ e. move crashed (record e { process = none })) s

abbrev pub restarts : Options → ℕ → Entry → List ℕ
restarts o now e =
    keep (λ time. leb now (time + o.restart_window_ms)) e.restart_timestamps ++ (now ∷ [])

-- What follows the move to `crashed`.
abbrev pub after_crash : Options → ℕ → Bool → Entry → Entry × Option SupervisorError
after_crash o now draining e =
    if leb o.restart_limit (length e.restart_timestamps)
    then move crash_loop e
    else if draining
    then move stopped e
    else move retry_wait (record e { retry_at = some (now + o.retry_delay_ms) })

unfoldable pub exit_entry : Options → ℕ → Bool → Entry → Entry × Option SupervisorError
exit_entry o now draining e =
    if not (is_active e.state)
    then (e, some invalid_state)
    else and_then
        (move crashed (record e { process = none; restart_timestamps = restarts o now e }))
        (after_crash o now draining)

-- `unexpectedExit`.
pub unexpected_exit : Supervisor → (id now : ℕ) → Supervisor × Option SupervisorError
unexpected_exit s id now = run_on id (exit_entry s.options now s.draining) s

abbrev can_retry : ProcessState → Bool
can_retry crash_loop = true
can_retry crashed = true
can_retry retry_wait = true
can_retry _ = false

abbrev retry_entry : Entry → Entry × Option SupervisorError
retry_entry e =
    if not (can_retry e.state && is_some e.spec)
    then (e, some invalid_state)
    else if state_eq e.state crash_loop
    then move stopped (record e { restart_timestamps = [] })
    else (record e { restart_timestamps = [] }, none)

-- `manualRetry`, up to its call of `start`.
pub manual_retry : Supervisor → ℕ → Supervisor × Option SupervisorError
manual_retry s id = run_on id retry_entry s

abbrev preserved : ProcessState → ProcessState
preserved crash_loop = crash_loop
preserved incompatible = incompatible
preserved _ = stopped

abbrev pub restored : ℕ → Entry → Entry
restored now e = record e {
  state = preserved e.state;
  process = none;
  last_activity_at = now;
  retry_at = none;
}

-- `restoreAfterReboot`.
pub restore_after_reboot : Supervisor → ℕ → List Entry → Supervisor
restore_after_reboot s now sessions = record s {
  entries = map (restored now) sessions;
  draining = false;
}
