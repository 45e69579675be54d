-- ===== src/Notifications/Service/Upkeep.antt =====
-- packages/bridge/src/notifications/service.ts: what follows a send, the devices, and the sweep.
use pi_mob.Prelude.{
  ℕ, ◌+◌, ◌*◌, Bool, true, false, not, Option, none, some, List, [], ◌∷◌, if◌then◌else◌, is_some,
  keep, Result, ok, err,
}
use pi_mob.Tables.{Device}
use pi_mob.Store.{Store, StoreErrorCode}
use pi_mob.Store.Devices.{
  DeviceInput, register_device_install, replace_device_token, unregister_device_install,
  unregister_installation, mark_device_rejected, touch_device_install, find_device_install,
  list_active_device_installs, sweep_notification_dedup,
}
use pi_mob.Notifications.Coalesce.{Coalescer, drop_key, sweep}
use pi_mob.Notifications.Service.{Service, is_supported}

pub data TransportResult : Type 0 where
  was_delivered was_transient : TransportResult
  was_permanent : ℕ → TransportResult

abbrev count_transient : Service → Service
count_transient n =
    let k = n.counters in
    record n { counters = record k { transient_failures = k.transient_failures + 1 } }

-- What an error of the store counts as, behind a send.
abbrev pub touched : {A : Type 0} → Service → Store × Result StoreErrorCode A → Service
touched n (s, ok _) = record n { store = s }
touched n (s, err code) = count_transient (record n { store = s })

abbrev pub rejected : {A : Type 0} → Service → Store × Result StoreErrorCode A → Service
rejected n (s, ok _) =
    let k = n.counters in
    record n { store = s; counters = record k { rejected_devices = k.rejected_devices + 1 } }
rejected n (s, err code) = count_transient (record n { store = s })

-- What follows a send to a device, `rejectDevice` included. Its timer is `drop_rejected`.
unfoldable pub settle_send : Service → ℕ → TransportResult → Service
settle_send n device was_delivered =
    let k = n.counters in
    touched (record n { counters = record k { delivered = k.delivered + 1 } })
      (touch_device_install n.store device)
settle_send n device was_transient = count_transient n
settle_send n device (was_permanent reason) =
    let k = n.counters in
    rejected (record n { counters = record k { permanent_failures = k.permanent_failures + 1 } })
      (mark_device_rejected n.store device reason)

abbrev with_store : {A : Type 0} → Service → Store × A → Service
with_store n (s, o) = record n { store = s }

-- The timer of `rejectDevice`.
unfoldable pub drop_rejected : Service → ℕ → Service
drop_rejected n device = with_store n (unregister_device_install n.store device)

abbrev drop_each : ℕ → List ℕ → Coalescer → Coalescer
drop_each device [] c = c
drop_each device (sid ∷ sids) c = drop_each device sids (drop_key c device sid)

abbrev pub dropped : {A : Type 0} → Service → ℕ → List ℕ → Store × Result StoreErrorCode A → Service
dropped n device sids (s, ok _) = record n {
  store = s;
  coalescer = drop_each device sids n.coalescer;
}
dropped n device sids (s, err code) = record n { store = s }

-- `unregisterDevice`, given the sessions whose states are known.
unfoldable pub unregister_device : Service → ℕ → List ℕ → Service
unregister_device n device sids = dropped n device sids (unregister_device_install n.store device)

-- `registerDevice`, whose input has the form that it asks for; none where the platform is not
-- configured.
unfoldable pub register_device :
    Service → DeviceInput → Service × Option (Result StoreErrorCode (Option Device × Bool))
register_device n input =
    if is_supported n input.platform
    then (let r = register_device_install n.store input in (with_store n r, some r.1))
    else (n, none)

abbrev pub is_refused : Service → Option Device → Bool
is_refused n none = false
is_refused n (some d) = not (is_supported n d.platform)

-- `replaceToken`: none where the platform is not configured.
unfoldable pub replace_token :
    Service → ℕ → ℕ → ℕ → Service × Option (Result StoreErrorCode (Option Device))
replace_token n device token version =
    if is_refused n (find_device_install device n.store.devices)
    then (n, none)
    else (let r = replace_device_token n.store device token version in (with_store n r, some r.1))

-- `unregisterInstallation`.
unfoldable pub unregister_install : Service → ℕ → Service
unregister_install n installation = with_store n (unregister_installation n.store installation)

abbrev pub succeeds : {A : Type 0} → Result StoreErrorCode A → Bool
succeeds (ok _) = true
succeeds (err code) = false

-- The first error of the store ends the loop.
unfoldable pub unregister_each : List Device → Service → Service × Bool
unregister_each [] n = (n, true)
unregister_each (d ∷ ds) n =
    let r = unregister_device_install n.store d.device_id in
    let rest = unregister_each ds (with_store n r) in
    if succeeds r.1 then rest else (with_store n r, false)

abbrev pub dedup_retention_ms : ℕ
dedup_retention_ms = 24 * 60 * 60000

abbrev pub swept : {A : Type 0} → ℕ → Service → Store × Result StoreErrorCode A → Service
swept now n (s, ok _) = record n { store = s; coalescer = sweep n.coalescer now }
swept now n (s, err code) = record n { store = s }

unfoldable pub sweep_rest : ℕ → Service × Bool → Service
sweep_rest now (n, true) = swept now n (sweep_notification_dedup n.store dedup_retention_ms now)
sweep_rest now (n, false) = n

-- `sweep`.
unfoldable pub sweep_all : Service → Service
sweep_all n = sweep_rest n.store.now (
    unregister_each (keep (λ d. is_some d.rejected) (list_active_device_installs n.store.devices))
      n)
