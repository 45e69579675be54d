-- ===== src/Supervisor/Rounds.antt =====
-- packages/bridge/src/core/process-supervisor.ts: the rounds of tick and drain.
use pi_mob.Prelude.{ℕ, ◌+◌, Bool, true, false, ◌&&◌, Option, none, some, leb, if◌then◌else◌}
use pi_mob.Supervisor.{
  idle, retry_wait, state_eq, needs_none, is_active, Entry, Options, Supervisor,
}

-- What `tick` does with an entry: nothing, a stop for being idle too long, or a start from the entry's spec.
pub data TickAction : Type 0 where
  rests : TickAction
  times_out : TickAction
  retries : (spec : ℕ) → TickAction

abbrev is_due : ℕ → Option ℕ → Bool
is_due now none = false
is_due now (some t) = leb t now

abbrev is_idle_too_long : Options → ℕ → Entry → Bool
is_idle_too_long o now e =
    state_eq e.state idle
    && (needs_none e.attention && leb (e.last_activity_at + o.idle_timeout_ms) now)

abbrev retry_due : ℕ → Entry → Option ℕ → Entry × TickAction
retry_due now e none = (e, rests)
retry_due now e (some spec) =
    if state_eq e.state retry_wait && is_due now e.retry_at
    then (record e { retry_at = none }, retries spec)
    else (e, rests)

-- A round of `tick`, up to its await. A stop that it waits for leaves no `retry_wait` behind.
pub tick_entry : Options → ℕ → Entry → Entry × TickAction
tick_entry o now e = if is_idle_too_long o now e then (e, times_out) else retry_due now e e.spec

-- What `drain` does with an entry: it stops it, it names it among the retained, or neither.
pub data DrainAction : Type 0 where
  drains retains passes : DrainAction

pub drain_entry : Entry → DrainAction
drain_entry e =
    if state_eq e.state idle && needs_none e.attention
    then drains
    else if is_active e.state
    then retains
    else passes

-- `drain`, before its loop.
pub begin_drain : Supervisor → Supervisor
begin_drain s = record s { draining = true }
