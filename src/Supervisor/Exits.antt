-- ===== src/Supervisor/Exits.antt =====
-- packages/bridge/src/core/process-supervisor.ts: unexpected exits of a process.
use pi_mob.Prelude.{ℕ, ◌+◌, Bool, Option, none, some, leb, if◌then◌else◌, length}
use pi_mob.Supervisor.{ProcessState, stopped, retry_wait, crash_loop, Entry, Options}
use pi_mob.Supervisor.Starting.{restarts}

-- The state after an exit, by the exits in the window and by whether the host drains.
abbrev pub exit_state : Options → ℕ → Bool → Entry → ProcessState
exit_state o now draining e =
    if leb o.restart_limit (length (restarts o now e))
    then crash_loop
    else if draining
    then stopped
    else retry_wait

abbrev pub exit_retry : Options → ℕ → Bool → Entry → Option ℕ
exit_retry o now draining e =
    if leb o.restart_limit (length (restarts o now e))
    then e.retry_at
    else if draining
    then e.retry_at
    else some (now + o.retry_delay_ms)

abbrev pub exited : Options → ℕ → Bool → Entry → Entry
exited o now draining e = record e {
  state = exit_state o now draining e;
  process = none;
  restart_timestamps = restarts o now e;
  retry_at = exit_retry o now draining e;
}
