-- ===== src/Store/Devices.antt =====
-- packages/bridge/src/core/store.ts: the devices that notifications go to, and the source events that
-- have been published.
pub mod Registry
pub mod Dedup
use pi_mob.Prelude.{
  ℕ, ◌+◌, ◌-◌, Bool, true, false, not, ◌&&◌, ◌||◌, Option, none, some, List, [], ◌∷◌, ◌++◌, ltb,
  ◌==◌, if◌then◌else◌, is_some, first, keep, has, update, sort_by, Result, ok, length,
}
use pi_mob.Tables.{Platform, platform_eq, Device, DedupRow}
use pi_mob.Store.{Store, Tx, transaction, StoreErrorCode, constraint, return, ◌>>=◌, ◌>>◌}

abbrev pub has_device_id : ℕ → Device → Bool
has_device_id id d = d.device_id == id

abbrev is_install : ℕ → Platform → Device → Bool
is_install installation p d = (d.installation_id == installation) && platform_eq d.platform p

-- `findDeviceInstallById`.
abbrev pub find_device_install : ℕ → List Device → Option Device
find_device_install id = first (has_device_id id)

-- `listActiveDeviceInstalls`.
abbrev pub list_active_device_installs : List Device → List Device
list_active_device_installs ds =
    sort_by (λ d. d.created_at) (keep (λ d. not (is_some d.rejected)) ds)

abbrev pub update_devices : (Device → Bool) → (Device → Device) → Tx (Unit {0})
update_devices test f s = ok (record s { devices = update test f s.devices }, tt)

-- The rows without those where the test holds, and the count of those.
abbrev pub delete_devices : (Device → Bool) → Tx ℕ
delete_devices test s =
    ok (record s { devices = keep (λ d. not (test d)) s.devices }, length (keep test s.devices))

pub record DeviceInput : Type 0 where
  pub installation_id : ℕ
  pub platform : Platform
  pub push_token : ℕ
  pub app_version : ℕ
  -- The id of the caller, or of `uuid()`.
  pub device_id : ℕ

abbrev is_new_token : ℕ → ℕ → Device → Bool
is_new_token token version d = not ((d.push_token == token) && (d.app_version == version))

-- The row with the token, whose revision moves on where the token or the version is another one.
abbrev retoken : ℕ → ℕ → Device → ℕ → Device → Device
retoken token version old now d = record d {
  push_token = token;
  app_version = version;
  token_revision =
      if is_new_token token version old then old.token_revision + 1 else old.token_revision;
  last_seen_at = now;
  rejected = none;
}

abbrev new_device : DeviceInput → ℕ → Device
new_device input now = record {
  device_id = input.device_id;
  installation_id = input.installation_id;
  platform = input.platform;
  push_token = input.push_token;
  app_version = input.app_version;
  token_revision = 1;
  last_seen_at = now;
  created_at = now;
  rejected = none;
}

-- `INSERT INTO notification_devices`: the key, and one row of an installation and a platform.
insert_device : Device → Tx (Unit {0})
insert_device d s =
    (constraint (
          not (
            has (λ o. (o.device_id == d.device_id) || is_install d.installation_id d.platform o)
              s.devices))
        >> λ t. ok (record t { devices = t.devices ++ (d ∷ []) }, tt))
      s

register_found : DeviceInput → Option Device → Tx (Option Device × Bool)
register_found input none s =
    (insert_device (new_device input s.now) >> λ t.
    ok (t, (find_device_install input.device_id t.devices, false)))
      s
register_found input (some old) s =
    (update_devices (is_install input.installation_id input.platform) (λ d.
          record (retoken input.push_token input.app_version old s.now d) {
            device_id = old.device_id;
          })
        >> λ t. ok (
          t,
          (
            find_device_install old.device_id t.devices,
            is_new_token input.push_token input.app_version old,
          ),
        ))
      s

-- `registerDeviceInstall`: the row, and whether it replaces another one.
pub register_device_install :
    Store → DeviceInput → Store × Result StoreErrorCode (Option Device × Bool)
register_device_install s input =
    transaction
      (λ t.
        register_found input (first (is_install input.installation_id input.platform) t.devices) t)
      s

replace_found : ℕ → ℕ → ℕ → Option Device → Tx (Option Device)
replace_found id token version none s = ok (s, none)
replace_found id token version (some old) s =
    (update_devices (has_device_id id) (retoken token version old s.now) >> λ t.
    ok (t, find_device_install id t.devices))
      s

-- `replaceDeviceToken`.
pub replace_device_token : Store → ℕ → ℕ → ℕ → Store × Result StoreErrorCode (Option Device)
replace_device_token s id token version =
    transaction (λ t. replace_found id token version (find_device_install id t.devices) t) s

-- `unregisterDeviceInstall` and `unregisterInstallation`.
pub unregister_device_install : Store → ℕ → Store × Result StoreErrorCode ℕ
unregister_device_install s id = transaction (delete_devices (has_device_id id)) s

pub unregister_installation : Store → ℕ → Store × Result StoreErrorCode ℕ
unregister_installation s installation =
    transaction (delete_devices (λ d. d.installation_id == installation)) s

reject_found : ℕ → ℕ → Option Device → Tx (Option Device)
reject_found id reason none s = ok (s, none)
reject_found id reason (some old) s =
    (update_devices (has_device_id id) (λ d. record d { rejected = some (reason, s.now) }) >> λ t.
    ok (t, find_device_install id t.devices))
      s

-- `markDeviceRejected`, with the reason as it is stored.
pub mark_device_rejected : Store → ℕ → ℕ → Store × Result StoreErrorCode (Option Device)
mark_device_rejected s id reason =
    transaction (λ t. reject_found id reason (find_device_install id t.devices) t) s

-- `touchDeviceInstall`.
unfoldable pub touch_device_install : Store → ℕ → Store × Result StoreErrorCode (Unit {0})
touch_device_install s id =
    transaction (λ t. update_devices (has_device_id id) (λ d. record d { last_seen_at = t.now }) t)
      s

-- `hasNotificationDedup`.
abbrev pub has_notification_dedup : ℕ → List DedupRow → Bool
has_notification_dedup id = has (λ r. r.source_event_id == id)

-- `INSERT OR IGNORE INTO notification_dedup`.
abbrev pub insert_dedup : ℕ → Tx (Unit {0})
insert_dedup id s = ok (
  (if has_notification_dedup id s.dedup then s else record s {
    dedup = s.dedup ++ (record { source_event_id = id; created_at = s.now } ∷ []);
  }),
  tt,
)

-- `recordNotificationDedup`.
unfoldable pub record_notification_dedup : Store → ℕ → Store × Result StoreErrorCode (Unit {0})
record_notification_dedup s id = transaction (insert_dedup id) s

abbrev pub delete_dedup : ℕ → Tx ℕ
delete_dedup before s = ok (
  record s { dedup = keep (λ r. not (ltb r.created_at before)) s.dedup },
  length (keep (λ r. ltb r.created_at before) s.dedup),
)

-- `sweepNotificationDedup`; a time before the first one is 0, which no row is before either.
unfoldable pub sweep_notification_dedup : Store → ℕ → ℕ → Store × Result StoreErrorCode ℕ
sweep_notification_dedup s retention now = transaction (delete_dedup (now - retention)) s
