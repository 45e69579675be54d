-- ===== src/RateQuota.antt =====
-- packages/bridge/src/auth/rate-quota.ts: createRateQuotaTracker. What the attachment store retains, in
-- all and for the installation, is given with each call.
pub mod Rate
mod Tests
use pi_mob.Prelude.{
  ℕ, ◌+◌, ◌-◌, Option, none, some, List, [], ◌∷◌, ◌++◌, ltb, ◌==◌, if◌then◌else◌, keep, length,
}

pub record RateQuotaLimits : Type 0 where
  pub uploads_per_minute : ℕ
  pub retained_bytes_per_installation : ℕ
  pub aggregate_bytes : ℕ

pub data RateQuotaOutcome : Type 0 where
  allowed : (remaining : ℕ) → RateQuotaOutcome
  rate_limited : (reset_at : ℕ) → RateQuotaOutcome
  quota_exceeded : (limit : ℕ) → RateQuotaOutcome
  storage_full : (limit : ℕ) → RateQuotaOutcome

abbrev pub window_ms : ℕ
window_ms = 60000

-- `uploadWindows`: an installation and the times of its calls.
abbrev pub Windows : Type 0
Windows = List (ℕ × List ℕ)

abbrev pub window_of : ℕ → Windows → List ℕ
window_of id [] = []
window_of id ((k, stamps) ∷ ws) = if k == id then stamps else window_of id ws

abbrev pub set_window : ℕ → List ℕ → Windows → Windows
set_window id stamps [] = (id, stamps) ∷ []
set_window id stamps ((k, old) ∷ ws) =
    if k == id then (k, stamps) ∷ ws else (k, old) ∷ set_window id stamps ws

pub record Upload : Type 0 where
  pub installation_id : ℕ
  pub declared_bytes : ℕ
  pub at : ℕ
  pub aggregate : ℕ
  pub retained : ℕ

abbrev pub recent : Windows → Upload → List ℕ
recent ws u =
    keep (λ stamp. ltb u.at (stamp + window_ms)) (window_of u.installation_id ws) ++ (u.at ∷ [])

abbrev pub oldest : List ℕ → ℕ
oldest [] = 0
oldest (t ∷ ts) = t

pub outcome_of : RateQuotaLimits → Upload → List ℕ → RateQuotaOutcome
outcome_of l u stamps =
    if ltb l.uploads_per_minute (length stamps)
    then rate_limited (oldest stamps + window_ms)
    else if ltb l.aggregate_bytes (u.aggregate + u.declared_bytes)
    then storage_full l.aggregate_bytes
    else if ltb l.retained_bytes_per_installation (u.retained + u.declared_bytes)
    then quota_exceeded l.retained_bytes_per_installation
    else allowed (l.uploads_per_minute - length stamps)

-- `canUpload`.
pub can_upload : RateQuotaLimits → Windows → Upload → Windows × RateQuotaOutcome
can_upload l ws u = (set_window u.installation_id (recent ws u) ws, outcome_of l u (recent ws u))

-- `reserveBytes`: none where the bytes are reserved, else why not.
abbrev pub rejection : RateQuotaOutcome → Option RateQuotaOutcome
rejection (allowed n) = none
rejection o = some o

pub reserve_bytes : RateQuotaLimits → Windows → Upload → Windows × Option RateQuotaOutcome
reserve_bytes l ws u = ((can_upload l ws u).0, rejection (can_upload l ws u).1)
