-- ===== src/Notifications/Service.antt =====
-- packages/bridge/src/notifications/service.ts: class BridgeNotificationService. The text that
-- buildNotificationId makes and the answer of sanitizeData come with the status; what a transport
-- answers to a notification, and when, with the call that takes the answer.
pub mod Upkeep
pub mod Publishing
pub mod Once
mod Tests
use pi_mob.Prelude.{
  ℕ, ◌+◌, ◌-◌, ◌*◌, Bool, true, false, not, ◌&&◌, Option, none, some, List, [], ◌∷◌, ◌++◌, ltb,
  if◌then◌else◌, is_some, keep, Result, ok, err,
}
use pi_mob.Tables.{Platform, apns, fcm, Device}
use pi_mob.Store.{Store, StoreErrorCode, not_found}
use pi_mob.Store.Devices.{
  DeviceInput, register_device_install, replace_device_token, unregister_device_install,
  unregister_installation, mark_device_rejected, touch_device_install, find_device_install,
  list_active_device_installs, has_notification_dedup, record_notification_dedup,
  sweep_notification_dedup,
}
use pi_mob.Notifications.Policy.{NotificationKind}
use pi_mob.Notifications.Coalesce.{
  Coalescer, CoalesceDecision, DecideInput, decide_next, drop_key, sweep,
}

pub record Counters : Type 0 where
  pub delivered : ℕ
  pub transient_failures : ℕ
  pub permanent_failures : ℕ
  pub rejected_devices : ℕ
  pub coalesced : ℕ
  pub stale_dropped : ℕ
  pub suppressed : ℕ

pub record Service : Type 0 where
  pub store : Store
  pub coalescer : Coalescer
  pub apns_supported : Bool
  pub fcm_supported : Bool
  -- `isSuspended`: the toggle or the host's wish.
  pub suspended : Bool
  pub stale_after_ms : ℕ
  pub counters : Counters

abbrev pub is_supported : Service → Platform → Bool
is_supported n apns = n.apns_supported
is_supported n fcm = n.fcm_supported

-- `setSuspended`, or a change of the host's wish.
pub set_suspended : Service → Bool → Service
set_suspended n value = record n { suspended = value }

-- What a transport is asked to send. The texts of the alert, the link and the data, which follow from
-- the status and the host's name, have no model.
pub record Sent : Type 0 where
  pub platform : Platform
  pub device_id : ℕ
  pub push_token : ℕ
  pub kind : NotificationKind
  pub session_id : ℕ
  pub notification_id : ℕ
  pub created_at : ℕ

pub record StatusInput : Type 0 where
  pub kind : NotificationKind
  pub session_id : ℕ
  -- None also for the empty text, which counts as no id.
  pub source_event_id : Option ℕ
  pub source_at : Option ℕ
  pub notification_id : ℕ
  pub is_safe : Bool

pub record PublishResult : Type 0 where
  pub delivered : ℕ
  pub suppressed : ℕ
  pub coalesced : ℕ
  pub stale : ℕ

abbrev no_result : PublishResult
no_result = record { delivered = 0; suppressed = 0; coalesced = 0; stale = 0 }

-- The service, what it answers and what it hands to the transports.
pub record Publication : Type 0 where
  pub service : Service
  pub result : PublishResult
  pub sent : List Sent

abbrev decide_input : StatusInput → ℕ → Device → DecideInput
decide_input i now d = record {
  device_id = d.device_id;
  session_id = i.session_id;
  kind = i.kind;
  notification_id = i.notification_id;
  now = now;
}

abbrev notification : StatusInput → ℕ → Device → Sent
notification i now d = record {
  platform = d.platform;
  device_id = d.device_id;
  push_token = d.push_token;
  kind = i.kind;
  session_id = i.session_id;
  notification_id = i.notification_id;
  created_at = now;
}

abbrev count_coalesced : Service → Service
count_coalesced n =
    let k = n.counters in record n { counters = record k { coalesced = k.coalesced + 1 } }

-- A device's round of the loop of `publishStatus`, once it is known whether its platform is supported
-- and what the coalescer decides.
send_decided :
    StatusInput → ℕ → Device → Service → Bool → Coalescer × CoalesceDecision → Publication
send_decided i now d n false (c, decision) = record { service = n; result = no_result; sent = [] }
send_decided i now d n true (c, decision) =
    if decision.emit
    then record {
      service = record n { coalescer = c };
      result = record no_result { delivered = 1 };
      sent = notification i now d ∷ [];
    }
    else record {
      service = count_coalesced (record n { coalescer = c });
      result = record no_result { coalesced = 1 };
      sent = [];
    }

send_one : StatusInput → ℕ → Device → Service → Publication
send_one i now d n =
    send_decided i now d n (is_supported n d.platform)
      (decide_next n.coalescer (decide_input i now d))

abbrev both : PublishResult → PublishResult → PublishResult
both a b = record {
  delivered = a.delivered + b.delivered;
  suppressed = a.suppressed + b.suppressed;
  coalesced = a.coalesced + b.coalesced;
  stale = a.stale + b.stale;
}

-- The loop of `publishStatus`.
send_each : StatusInput → ℕ → List Device → Service → Publication
send_each i now [] n = record { service = n; result = no_result; sent = [] }
send_each i now (d ∷ ds) n =
    let here = send_one i now d n in
    let rest = send_each i now ds here.service in
    record {
      service = rest.service;
      result = both here.result rest.result;
      sent = here.sent ++ rest.sent;
    }

abbrev is_stale : Service → ℕ → Option ℕ → Bool
is_stale n now none = false
is_stale n now (some at) = ltb n.stale_after_ms (now - at)

abbrev quiet : Service → PublishResult → Publication
quiet n r = record { service = n; result = r; sent = [] }

-- `publishStatus` behind the check of duplicates.
publish_fresh : Service → StatusInput → Publication
publish_fresh n i =
    let now = n.store.now in
    let k = n.counters in
    if is_stale n now i.source_at
    then quiet (record n { counters = record k { stale_dropped = k.stale_dropped + 1 } })
        (record no_result { stale = 1 })
    else if i.is_safe
    then send_each i now (list_active_device_installs n.store.devices) n
    else quiet (record n { counters = record k { suppressed = k.suppressed + 1 } })
        (record no_result { suppressed = 1 })

publish_recorded :
    Service
    → StatusInput
    → Store × Result StoreErrorCode (Unit {0})
    → Service × Result StoreErrorCode Publication
publish_recorded n i (s, ok _) =
    let p = publish_fresh (record n { store = s }) i in (p.service, ok p)
publish_recorded n i (s, err code) = (record n { store = s }, err code)

publish_sourced : Service → StatusInput → Option ℕ → Service × Result StoreErrorCode Publication
publish_sourced n i none = let p = publish_fresh n i in (p.service, ok p)
publish_sourced n i (some id) =
    if has_notification_dedup id n.store.dedup
    then (let p = quiet (count_coalesced n) (record no_result { coalesced = 1 }) in
        (p.service, ok p))
    else publish_recorded n i (record_notification_dedup n.store id)

-- `publishStatus`.
pub publish_status : Service → StatusInput → Service × Result StoreErrorCode Publication
publish_status n i =
    let k = n.counters in
    if n.suspended
    then (let p =
          quiet (record n { counters = record k { suppressed = k.suppressed + 1 } })
            (record no_result { suppressed = 1 }) in
        (p.service, ok p))
    else publish_sourced n i i.source_event_id
