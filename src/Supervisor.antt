-- ===== src/Supervisor.antt =====
-- packages/bridge/src/core/process-supervisor.ts: class ProcessSupervisor. A process and what it is
-- spawned from are numbers. The steps of start and stop are those between their awaits. The
-- events and the diagnostics that the code writes are left out.
pub mod Starting
pub mod Rounds
pub mod Exits
pub mod Eviction
mod Tests
use pi_mob.Prelude.{
  ℕ, ◌+◌, ◌*◌, Bool, true, false, not, ◌&&◌, ◌||◌, Option, none, some, List, [], ◌∷◌, ◌++◌, ltb,
  leb, ◌==◌, if◌then◌else◌, first, has, keep, update, sort_by, is_some, length, map,
}

pub data ProcessState : Type 0 where
  stopped starting idle running waiting_for_input retry_wait compacting stopping crashed crash_loop
        incompatible :
      ProcessState

abbrev code : ProcessState → ℕ
code stopped = 0
code starting = 1
code idle = 2
code running = 3
code waiting_for_input = 4
code retry_wait = 5
code compacting = 6
code stopping = 7
code crashed = 8
code crash_loop = 9
code incompatible = 10

abbrev pub state_eq : ProcessState → ProcessState → Bool
state_eq a b = code a == code b

pub data ProcessAttention : Type 0 where
  no_attention user_attention dialog_attention queued_attention : ProcessAttention

abbrev pub needs_none : ProcessAttention → Bool
needs_none no_attention = true
needs_none _ = false

pub data SupervisorError : Type 0 where
  not_found invalid_state host_capacity host_draining in_crash_loop : SupervisorError

pub record Entry : Type 0 where
  pub session_id : ℕ
  pub state : ProcessState
  pub attention : ProcessAttention
  pub process : Option ℕ
  pub spec : Option ℕ
  pub last_activity_at : ℕ
  pub restart_timestamps : List ℕ
  pub retry_at : Option ℕ
  pub forced_cleanup : Bool

pub record Options : Type 0 where
  pub capacity : ℕ
  pub idle_timeout_ms : ℕ
  pub restart_window_ms : ℕ
  pub restart_limit : ℕ
  pub retry_delay_ms : ℕ

-- The options that the constructor fills in.
abbrev pub default_options : Options
default_options = record {
  capacity = 3;
  idle_timeout_ms = 30 * 60000;
  restart_window_ms = 5 * 60000;
  restart_limit = 3;
  retry_delay_ms = 1000;
}

pub record Supervisor : Type 0 where
  pub options : Options
  pub entries : List Entry
  pub draining : Bool

-- `ACTIVE`.
abbrev pub is_active : ProcessState → Bool
is_active starting = true
is_active idle = true
is_active running = true
is_active waiting_for_input = true
is_active retry_wait = true
is_active compacting = true
is_active stopping = true
is_active _ = false

-- `ALLOWED`.
abbrev pub allowed : ProcessState → List ProcessState
allowed stopped = starting ∷ incompatible ∷ []
allowed starting = idle ∷ crashed ∷ incompatible ∷ stopping ∷ []
allowed idle = running ∷ waiting_for_input ∷ compacting ∷ stopping ∷ crashed ∷ []
allowed running = idle ∷ waiting_for_input ∷ compacting ∷ stopping ∷ crashed ∷ []
allowed waiting_for_input = idle ∷ running ∷ stopping ∷ crashed ∷ []
allowed retry_wait = starting ∷ stopping ∷ crashed ∷ crash_loop ∷ []
allowed compacting = idle ∷ running ∷ stopping ∷ crashed ∷ []
allowed stopping = stopped ∷ crashed ∷ []
allowed crashed = retry_wait ∷ starting ∷ crash_loop ∷ stopped ∷ []
allowed crash_loop = starting ∷ stopped ∷ []
allowed incompatible = stopped ∷ []

-- `move`: the entry, and what is thrown.
pub move : ProcessState → Entry → Entry × Option SupervisorError
move to e =
    if state_eq e.state to
    then (e, none)
    else if not (has (state_eq to) (allowed e.state))
    then (e, some invalid_state)
    else (record e { state = to }, none)

-- The rest of a body, which a thrown error skips.
abbrev pub and_then :
    Entry × Option SupervisorError
    → (Entry → Entry × Option SupervisorError)
    → Entry × Option SupervisorError
and_then (e, none) f = f e
and_then (e, some x) f = (e, some x)

abbrev pub has_id : ℕ → Entry → Bool
has_id id e = e.session_id == id

-- `require`, and the step on the entry that it finds.
abbrev run_found :
    ℕ
    → (Entry → Entry × Option SupervisorError)
    → Supervisor
    → Option Entry
    → Supervisor × Option SupervisorError
run_found id f s none = (s, some not_found)
run_found id f s (some e) =
    (record s { entries = update (has_id id) (λ o. (f e).0) s.entries }, (f e).1)

abbrev pub run_on :
    ℕ → (Entry → Entry × Option SupervisorError) → Supervisor → Supervisor × Option SupervisorError
run_on id f s = run_found id f s (first (has_id id) s.entries)

abbrev new_entry : (id now : ℕ) → ProcessState → Entry
new_entry id now state = record {
  session_id = id;
  state = state;
  attention = no_attention;
  process = none;
  spec = none;
  last_activity_at = now;
  restart_timestamps = [];
  retry_at = none;
  forced_cleanup = false;
}

-- `register`.
pub register : Supervisor → (id now : ℕ) → ProcessState → Supervisor
register s id now state =
    if has (has_id id) s.entries
    then s
    else record s { entries = s.entries ++ (new_entry id now state ∷ []) }

-- `configure`.
pub configure : Supervisor → (id spec : ℕ) → Supervisor × Option SupervisorError
configure s id spec = run_on id (λ e. (record e { spec = some spec }, none)) s

-- `setAttention`.
pub set_attention :
    Supervisor → (id now : ℕ) → ProcessAttention → Supervisor × Option SupervisorError
set_attention s id now a =
    run_on id (λ e. (record e { attention = a; last_activity_at = now }, none)) s

abbrev pub occupies : Entry → Bool
occupies e = is_some e.process && is_active e.state

-- `activeCount`.
abbrev pub active_count : Supervisor → ℕ
active_count s = length (keep occupies s.entries)

-- `stop`, up to the await: the entry moves to `stopping`, or is stopped at once where it has no process.
abbrev pub stop_entry : Entry → Entry × Option SupervisorError
stop_entry e =
    if state_eq e.state stopped
    then (e, none)
    else if not (is_some e.process)
    then (record e { state = stopped }, none)
    else move stopping e

pub begin_stop : Supervisor → ℕ → Supervisor × Option SupervisorError
begin_stop s id = run_on id stop_entry s

-- `stop`, from the await on; whether the group of the process was killed.
pub end_stop : Supervisor → ℕ → Bool → Supervisor × Option SupervisorError
end_stop s id killed =
    run_on id
      (λ e. move stopped (record e { process = none; forced_cleanup = e.forced_cleanup || killed }))
      s

abbrev moved_to :
    ProcessState → ℕ → Option ProcessAttention → Entry → Entry × Option SupervisorError
moved_to to now none e = and_then (move to e) (λ m. (record m { last_activity_at = now }, none))
moved_to to now (some a) e =
    and_then (move to (record e { attention = a }))
      (λ m. (record m { last_activity_at = now }, none))

abbrev settles : Supervisor → ProcessState → Entry → Bool
settles s to e = s.draining && (state_eq to idle && needs_none e.attention)

abbrev drained_entry : Supervisor → ProcessState → Entry → Entry × Option SupervisorError
drained_entry s to e = if settles s to e then stop_entry e else (e, none)

-- `transition`, and the start of `stop` where the host drains.
pub transition :
    Supervisor
    → (id now : ℕ) → ProcessState
    → Option ProcessAttention
    → Supervisor × Option SupervisorError
transition s id now to a = run_on id (λ e. and_then (moved_to to now a e) (drained_entry s to)) s
