-- ===== src/Store/Devices/Dedup.antt =====
-- packages/bridge/src/core/store.ts: how long a source event counts as published.
use pi_mob.Prelude.{
  ℕ, ◌+◌, ◌-◌, ◌≤◌, ◌≡◌, refl, ap, ◌∙◌, Bool, true, false, not, ◌&&◌, ◌||◌, List, [], ◌∷◌, ◌++◌,
  ltb, leb, ◌==◌, has, keep, has-append, arith, le→leb, ==_refl,
}
use pi_mob.Tables.{DedupRow}
use pi_mob.Store.{Store}
use pi_mob.Store.Transactions.{Concludes, transaction-Concludes, transaction-keeps}
use pi_mob.Store.Devices.{
  has_notification_dedup, record_notification_dedup, insert_dedup, sweep_notification_dedup,
  delete_dedup,
}
use pi_mob.Store.Devices.Registry.{IsRegistry}

abbrev pub is_row_since : ℕ → ℕ → DedupRow → Bool
is_row_since e since r = (r.source_event_id == e) && leb since r.created_at

-- The event has been recorded at the time or later.
abbrev pub IsRecorded : ℕ → ℕ → List DedupRow → Type 0
IsRecorded e since rows = has (is_row_since e since) rows ≡ true

-- Recording an event that is not there adds its row and leaves the devices alone.
pub record_notification_dedup-Concludes :
    (s : Store) (id : ℕ)
    → has_notification_dedup id s.dedup ≡ false
    → Concludes
        (λ t a.
          (t.devices ≡ s.devices)
          × (t.dedup ≡ s.dedup ++ (record { source_event_id = id; created_at = s.now } ∷ [])))
        (λ t. (t.devices ≡ s.devices) × (t.dedup ≡ s.dedup))
        (record_notification_dedup s id)
unfolding record_notification_dedup
record_notification_dedup-Concludes s id h =
    transaction-Concludes
      (λ t a.
        (t.devices ≡ s.devices)
        × (t.dedup ≡ s.dedup ++ (record { source_event_id = id; created_at = s.now } ∷ [])))
      (λ t. (t.devices ≡ s.devices) × (t.dedup ≡ s.dedup)) (insert_dedup id) s (λ a t p c w k. k)
      (λ t p c w k. k) (refl, refl) (rw h (refl, refl))

pub recorded_now :
    (e since now : ℕ) (rows : List DedupRow)
    → since ≤ now
    → IsRecorded e since (rows ++ (record { source_event_id = e; created_at = now } ∷ []))
recorded_now e since now rows h =
    has-append (is_row_since e since) rows (record { source_event_id = e; created_at = now } ∷ [])
    ∙ rw (==_refl e, le→leb since now h) (last (has (is_row_since e since) rows))
  where
    last : (b : Bool) → (b || true) ≡ true
    last true = refl
    last false = refl

pub IsRecorded-snoc :
    (e since : ℕ) (rows : List DedupRow) (r : DedupRow)
    → IsRecorded e since rows
    → IsRecorded e since (rows ++ (r ∷ []))
IsRecorded-snoc e since rows r h =
    has-append (is_row_since e since) rows (r ∷ [])
    ∙ ap (λ b. b || has (is_row_since e since) (r ∷ [])) h

pub recorded-has :
    (e since : ℕ) (rows : List DedupRow)
    → IsRecorded e since rows
    → has_notification_dedup e rows ≡ true
recorded-has e since [] h = cc
recorded-has e since (x ∷ xs) h = ground (arith, h, recorded-has e since xs)

kept_since :
    (e since before : ℕ) (rows : List DedupRow)
    → before ≤ since
    → IsRecorded e since rows
    → IsRecorded e since (keep (λ r. not (ltb r.created_at before)) rows)
kept_since e since before [] le h = cc
kept_since e since before (x ∷ xs) le h = ground (arith, le, h, kept_since e since before xs le)

-- A sweep keeps the keys of the devices, and what has been recorded within the time of retention.
pub sweep_notification_dedup-IsRecorded :
    (e since retention now : ℕ) (s : Store)
    → now ≤ since + retention
    → IsRegistry s.devices
    → IsRegistry (sweep_notification_dedup s retention now).0.devices
      × (IsRecorded e since s.dedup
          → IsRecorded e since (sweep_notification_dedup s retention now).0.dedup)
unfolding sweep_notification_dedup
sweep_notification_dedup-IsRecorded e since retention now s le r = (
  transaction-keeps (λ t. IsRegistry t.devices) (λ t p c w k. k) (delete_dedup (now - retention)) s
      (λ t k. k) r,
  transaction-keeps (λ t. IsRecorded e since t.dedup) (λ t p c w k. k)
      (delete_dedup (now - retention)) s
      (λ t. kept_since e since (now - retention) t.dedup (omega (arith, le))),
)
