-- ===== src/Supervisor/Eviction.antt =====
-- packages/bridge/src/core/process-supervisor.ts: which process start stops to make room.
use pi_mob.Prelude.{ℕ, ◌≤◌, ◌≡◌, true, List, [], ◌∷◌, keep, All}
use pi_mob.Supervisor.{Supervisor, Entry}
use pi_mob.Supervisor.Starting.{Admission, evicts, is_victim}

-- An entry that is idle, without attention and of another session, and idle for the longest of those.
pub record IsOldest (s : Supervisor) (id victim : ℕ) : Type 0 where
  pub entry : Entry
  pub same_id : entry.session_id ≡ victim
  pub is_idle : is_victim id entry ≡ true
  pub is_first :
      All (λ e. entry.last_activity_at ≤ e.last_activity_at) (keep (is_victim id) s.entries)

-- The head of a list is the first, by its time, of another list; the empty list leads none.
abbrev Leads : List Entry → List Entry → Type 0
Leads [] ys = ys ≡ []
Leads (h ∷ t) ys = All (λ y. h.last_activity_at ≤ y.last_activity_at) ys

abbrev evicted : Admission → ℕ
evicted (evicts v) = v
evicted _ = 0
