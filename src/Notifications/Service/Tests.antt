-- ===== src/Notifications/Service/Tests.antt =====
-- packages/bridge/src/notifications/service.ts: a service with one device, run.
use pi_mob.Prelude.{ℕ, ◌≤◌, ◌≡◌, refl, true, false, none, some, List, [], ◌∷◌, map, arith}
use pi_mob.Tables.{Device, apns}
use pi_mob.Store.{transaction}
use pi_mob.Store.Samples.{empty_store}
use pi_mob.Store.Devices.{record_notification_dedup, touch_device_install, sweep_notification_dedup}
use pi_mob.Store.Devices.Registry.{IsRegistry}
use pi_mob.Notifications.Policy.{settled}
use pi_mob.Notifications.Coalesce.{default_coalesce_limits, decide, decide_next, snapshot, sweep}
use pi_mob.Notifications.Service.{
  Service, StatusInput, publish_status, publish_sourced, publish_recorded, publish_fresh, send_each,
  send_one, send_decided, set_suspended,
}
use pi_mob.Notifications.Service.Upkeep.{
  was_delivered, settle_send, sweep_all, sweep_rest, unregister_each,
}
use pi_mob.Notifications.Service.Publishing.{count_to}
use pi_mob.Notifications.Service.Once.{
  Action, publish, answer, clean, suspend, acts, IsWithin, acts-once,
}

abbrev phone : Device
phone = record {
  device_id = 1;
  installation_id = 2;
  platform = apns;
  push_token = 3;
  app_version = 4;
  token_revision = 1;
  last_seen_at = 100;
  created_at = 100;
  rejected = none;
}

abbrev service : Service
service = record {
  store = record empty_store { devices = phone ∷ [] };
  coalescer = record { per_key = []; per_device_minute = []; limits = default_coalesce_limits };
  apns_supported = true;
  fcm_supported = false;
  suspended = false;
  stale_after_ms = 300000;
  counters = record {
    delivered = 0;
    transient_failures = 0;
    permanent_failures = 0;
    rejected_devices = 0;
    coalesced = 0;
    stale_dropped = 0;
    suppressed = 0;
  };
}

abbrev status : ℕ → StatusInput
status source = record {
  kind = settled;
  session_id = 5;
  source_event_id = some source;
  source_at = none;
  notification_id = source;
  is_safe = true;
}

-- Event 7 is published twice, two minutes apart, with a sweep between.
abbrev retried : List (ℕ × Action)
retried =
    (1000, publish (status 7))
    ∷ (1001, answer 1 was_delivered)
    ∷ (59000, suspend true)
    ∷ (60000, clean)
    ∷ (61000, suspend false)
    ∷ (121000, publish (status 7))
    ∷ (122000, publish (status 8))
    ∷ []

registry : IsRegistry (phone ∷ [])
registry = record { unique_ids = (tt, tt); one_install = λ i p. ground arith }

within : IsWithin 1000 retried
within = omega arith

acts-once_example : count_to 7 1 (acts service retried).sent ≤ 1
acts-once_example = acts-once service retried 1000 7 1 within registry

two_are_sent : map (λ x. x.source) (acts service retried).sent ≡ some 7 ∷ some 8 ∷ []
unfolding publish_status publish_sourced publish_recorded publish_fresh send_each send_one
    send_decided decide decide_next snapshot sweep settle_send set_suspended sweep_all sweep_rest
    unregister_each transaction record_notification_dedup touch_device_install
    sweep_notification_dedup
two_are_sent = refl
