-- ===== src/Notifications/Service/Once.antt =====
-- packages/bridge/src/notifications/service.ts: runs of the service.
use pi_mob.Prelude.{
  ℕ, ◌+◌, ◌≤◌, ◌≡◌, refl, sym, subst, Bool, true, false, List, [], ◌∷◌, ◌++◌, All, keep, is_some,
  arith, Bool-cases, inl, inr, Result, ok, err, length-keep-append,
}
use pi_mob.Tables.{Device, DedupRow}
use pi_mob.Store.{Store, StoreErrorCode}
use pi_mob.Store.Devices.{
  DeviceInput, unregister_device_install, register_device_install, replace_device_token,
  unregister_installation, mark_device_rejected, touch_device_install, find_device_install,
  sweep_notification_dedup, list_active_device_installs,
}
use pi_mob.Store.Devices.Registry.{
  IsRegistry, Registers, register_device_install-Registers, replace_device_token-Registers,
  mark_device_rejected-Registers, unregister_device_install-Registers,
  unregister_installation-Registers, touch_device_install-Registers,
}
use pi_mob.Store.Devices.Dedup.{IsRecorded, sweep_notification_dedup-IsRecorded}
use pi_mob.Notifications.Service.{Service, StatusInput, publish_status, set_suspended, is_supported}
use pi_mob.Notifications.Service.Upkeep.{
  TransportResult, was_delivered, was_transient, was_permanent, settle_send, drop_rejected,
  unregister_device, register_device, replace_token, unregister_install, unregister_each,
  sweep_rest, sweep_all, dedup_retention_ms, is_refused, touched, rejected, dropped, swept,
  succeeds,
}
use pi_mob.Notifications.Service.Publishing.{
  Outcome, deliveries, count_to, goes_to, IsSound, nothing_sent, publish_status-IsSound,
}

pub data Action : Type 0 where
  publish : StatusInput → Action
  answer : ℕ → TransportResult → Action
  timer : ℕ → Action
  unregister : ℕ → List ℕ → Action
  register : DeviceInput → Action
  replace : ℕ → ℕ → ℕ → Action
  uninstall : ℕ → Action
  clean : Action
  suspend : Bool → Action

abbrev silent : Service → Outcome
silent n = record { service = n; sent = [] }

abbrev pub act : Service → Action → Outcome
act n (publish i) = deliveries i.source_event_id (publish_status n i)
act n (answer device r) = silent (settle_send n device r)
act n (timer device) = silent (drop_rejected n device)
act n (unregister device sids) = silent (unregister_device n device sids)
act n (register input) = silent (register_device n input).0
act n (replace device token version) = silent (replace_token n device token version).0
act n (uninstall installation) = silent (unregister_install n installation)
act n clean = silent (sweep_all n)
act n (suspend value) = silent (set_suspended n value)

-- The clock of the service and the store, which the process shares.
abbrev pub at_time : ℕ → Service → Service
at_time t n = let s = n.store in record n { store = record s { now = t } }

-- Actions at their times, one after the other.
abbrev pub acts : Service → List (ℕ × Action) → Outcome
acts n [] = record { service = n; sent = [] }
acts n ((t, a) ∷ as_) =
    let here = act (at_time t n) a in
    let rest = acts here.service as_ in
    record { service = rest.service; sent = here.sent ++ rest.sent }

-- The times lie within the time for which a source event is remembered.
abbrev pub IsWithin : ℕ → List (ℕ × Action) → Type 0
IsWithin since = All (λ x. (since ≤ x.0) × (x.0 ≤ since + dedup_retention_ms))

-- The service that has counted the answer.
abbrev counted : Service → Service
counted n = let k = n.counters in record n { counters = record k { delivered = k.delivered + 1 } }

abbrev counted_out : Service → Service
counted_out n =
    let k = n.counters in
    record n { counters = record k { permanent_failures = k.permanent_failures + 1 } }

module _ (e d since : ℕ) (n : Service) (r : IsRegistry n.store.devices) where
  -- An action that sends nothing and leaves the published events alone.
  moved :
      (m : Service) (s : Store)
      → m.store ≡ s
      → Registers n.store.dedup s
      → IsSound e d since n (silent m)
  moved m s same (k, rows) =
      nothing_sent e d since n m (subst (λ t. IsRegistry t.devices) (sym same) k) (
        subst (λ t. IsRecorded e since n.store.dedup → IsRecorded e since t.dedup) (sym same)
          (subst (IsRecorded e since) (sym rows)))

  touched_store :
      {A : Type 0} (m : Service) (o : Store × Result StoreErrorCode A) → (touched m o).store ≡ o.0
  touched_store m (s, ok a) = refl
  touched_store m (s, err code) = refl

  rejected_store :
      {A : Type 0} (m : Service) (o : Store × Result StoreErrorCode A) → (rejected m o).store ≡ o.0
  rejected_store m (s, ok a) = refl
  rejected_store m (s, err code) = refl

  dropped_store :
      {A : Type 0} (m : Service) (device : ℕ) (sids : List ℕ) (o : Store × Result StoreErrorCode A)
      → (dropped m device sids o).store ≡ o.0
  dropped_store m device sids (s, ok a) = refl
  dropped_store m device sids (s, err code) = refl

  settle_send-IsSound :
      (device : ℕ) (o : TransportResult) → IsSound e d since n (silent (settle_send n device o))
  unfolding settle_send
  settle_send-IsSound device was_delivered =
      moved (settle_send n device was_delivered) (touch_device_install n.store device).0
        (touched_store (counted n) (touch_device_install n.store device))
        (touch_device_install-Registers n.store.dedup n.store (r, refl) device)
  settle_send-IsSound device was_transient = moved _ n.store refl (r, refl)
  settle_send-IsSound device (was_permanent reason) =
      moved (settle_send n device (was_permanent reason))
        (mark_device_rejected n.store device reason).0
        (rejected_store (counted_out n) (mark_device_rejected n.store device reason))
        (mark_device_rejected-Registers n.store.dedup n.store (r, refl) device reason)

  register-IsSound :
      (input : DeviceInput) → IsSound e d since n (silent (register_device n input).0)
  unfolding register_device
  register-IsSound input = elim (Bool-cases (is_supported n input.platform)) [
    | inl k ↦ simp k (
        moved _ (register_device_install n.store input).0 refl
          (register_device_install-Registers n.store.dedup n.store (r, refl) input))
    | inr k ↦ simp k (moved n n.store refl (r, refl))
  ]

  replace-IsSound :
      (device token version : ℕ)
      → IsSound e d since n (silent (replace_token n device token version).0)
  unfolding replace_token
  replace-IsSound device token version =
      elim (Bool-cases (is_refused n (find_device_install device n.store.devices))) [
        | inl k ↦ simp k (moved n n.store refl (r, refl))
        | inr k ↦ simp k (
            moved _ (replace_device_token n.store device token version).0 refl
              (replace_device_token-Registers n.store.dedup n.store (r, refl) device token version))
      ]

unregister_each-Registers :
    (rows : List DedupRow) (ds : List Device) (n : Service)
    → Registers rows n.store
    → Registers rows (unregister_each ds n).0.store
unfolding unregister_each
unregister_each-Registers rows [] n h = h
unregister_each-Registers rows (x ∷ xs) n h =
    let o = unregister_device_install n.store x.device_id in
    let kept = unregister_device_install-Registers rows n.store h x.device_id in
    let ih = unregister_each-Registers rows xs (record n { store = o.0 }) kept in
    elim (Bool-cases (succeeds o.1)) [ inl k ↦ simp k ih | inr k ↦ simp k kept ]

swept_store :
    {A : Type 0} (now : ℕ) (m : Service) (o : Store × Result StoreErrorCode A)
    → (swept now m o).store ≡ o.0
swept_store now m (s, ok a) = refl
swept_store now m (s, err code) = refl

sweep_rest-IsSound :
    (e d since now : ℕ) (n : Service) (o : Service × Bool)
    → now ≤ since + dedup_retention_ms
    → Registers n.store.dedup o.0.store
    → IsSound e d since n (silent (sweep_rest now o))
unfolding sweep_rest
sweep_rest-IsSound e d since now n (m, false) le (r, rows) =
    nothing_sent e d since n m r (subst (IsRecorded e since) (sym rows))
sweep_rest-IsSound e d since now n (m, true) le (r, rows) =
    let s = (sweep_notification_dedup m.store dedup_retention_ms now).0 in
    let (r', keeps) =
      sweep_notification_dedup-IsRecorded e since dedup_retention_ms now m.store le r in
    let same = swept_store now m (sweep_notification_dedup m.store dedup_retention_ms now) in
    nothing_sent e d since n (swept now m (sweep_notification_dedup m.store dedup_retention_ms now))
      (subst (λ t. IsRegistry t.devices) (sym same) r')
      (λ k.
        subst (λ t. IsRecorded e since t.dedup) (sym same)
          (keeps (subst (IsRecorded e since) (sym rows) k)))

act-IsSound :
    (e d since : ℕ) (n : Service) (a : Action)
    → since ≤ n.store.now
    → n.store.now ≤ since + dedup_retention_ms
    → IsRegistry n.store.devices
    → IsSound e d since n (act n a)
unfolding settle_send drop_rejected unregister_device unregister_install sweep_all set_suspended
act-IsSound e d since n (publish i) le within r = publish_status-IsSound e d since n i le r
act-IsSound e d since n (answer device o) le within r = settle_send-IsSound e d since n r device o
act-IsSound e d since n (timer device) le within r =
    moved e d since n r _ (unregister_device_install n.store device).0 refl
      (unregister_device_install-Registers n.store.dedup n.store (r, refl) device)
act-IsSound e d since n (unregister device sids) le within r =
    moved e d since n r (dropped n device sids (unregister_device_install n.store device))
      (unregister_device_install n.store device).0
      (dropped_store e d since n r n device sids (unregister_device_install n.store device))
      (unregister_device_install-Registers n.store.dedup n.store (r, refl) device)
act-IsSound e d since n (register input) le within r = register-IsSound e d since n r input
act-IsSound e d since n (replace device token version) le within r =
    replace-IsSound e d since n r device token version
act-IsSound e d since n (uninstall installation) le within r =
    moved e d since n r _ (unregister_installation n.store installation).0 refl
      (unregister_installation-Registers n.store.dedup n.store (r, refl) installation)
act-IsSound e d since n clean le within r =
    let gone = keep (λ x. is_some x.rejected) (list_active_device_installs n.store.devices) in
    sweep_rest-IsSound e d since n.store.now n (unregister_each gone n) within
      (unregister_each-Registers n.store.dedup gone n (r, refl))
act-IsSound e d since n (suspend value) le within r =
    moved e d since n r (set_suspended n value) n.store refl (r, refl)

-- What a run sends of an event to a device.
acts_le :
    (e d since : ℕ) (n : Service) (as_ : List (ℕ × Action))
    → IsWithin since as_
    → IsRegistry n.store.devices
    → (count_to e d (acts n as_).sent ≤ 1)
      × (IsRecorded e since n.store.dedup → count_to e d (acts n as_).sent ≤ 0)
acts_le e d since n [] w r = (omega arith, λ _. omega arith)
acts_le e d since n ((t, a) ∷ as_) w r =
    let here = act (at_time t n) a in
    let sound = act-IsSound e d since (at_time t n) a w.0.0 w.0.1 r in
    let rest = acts here.service as_ in
    let (le, gone) = acts_le e d since here.service as_ w.1 sound.registry in
    let total = length-keep-append (goes_to e d) here.sent rest.sent in
    (
      elim sound.after [
        | inl k ↦ omega (arith, k, le, total)
        | inr k ↦
            let first = sound.at_most in let later = gone k in omega (arith, first, later, total)
      ],
      λ known.
          let first = sound.no_more known in
          let later = gone (sound.recorded known) in omega (arith, first, later, total),
    )

-- Whatever statuses are published, devices registered, given new tokens, rejected and unregistered,
-- whenever the service is suspended or swept, and whichever calls throw: in a span of 24 hours a device
-- is sent one notification of a source event at most. The times of the calls lie in the span, and the
-- table of devices has its keys at first.
pub acts-once :
    (n : Service) (as_ : List (ℕ × Action)) (since source device : ℕ)
    → IsWithin since as_
    → IsRegistry n.store.devices
    → count_to source device (acts n as_).sent ≤ 1
acts-once n as_ since source device w r = (acts_le source device since n as_ w r).0
