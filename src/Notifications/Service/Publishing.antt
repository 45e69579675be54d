-- ===== src/Notifications/Service/Publishing.antt =====
-- packages/bridge/src/notifications/service.ts: to which devices a status goes out, and when it is
-- known to have been published.
use pi_mob.Prelude.{
  ℕ, ◌≤◌, ◌≡◌, refl, sym, ap, ◌∙◌, subst, Bool, true, false, not, ◌&&◌, Option, none, some, List,
  [], ◌∷◌, ◌++◌, ◌==◌, keep, map, length, arith, Bool-cases, inl, inr, ◌⊎◌, Result, ok, err, opt_eq,
  keep-IsUnique, sort_by-IsUnique, IsUnique-le, is_some, ==_iff, length-keep-append,
}
use pi_mob.Tables.{Device}
use pi_mob.Store.{Store, StoreErrorCode}
use pi_mob.Store.Transactions.{Concludes}
use pi_mob.Store.Devices.{
  list_active_device_installs, has_notification_dedup, record_notification_dedup,
}
use pi_mob.Store.Devices.Registry.{IsRegistry}
use pi_mob.Store.Devices.Dedup.{
  IsRecorded, record_notification_dedup-Concludes, recorded_now, IsRecorded-snoc, recorded-has,
}
use pi_mob.Notifications.Coalesce.{Coalescer, CoalesceDecision, decide_next}
use pi_mob.Notifications.Service.{
  Service, Sent, StatusInput, Publication, send_decided, send_one, send_each, publish_fresh,
  publish_recorded, publish_sourced, publish_status, is_supported, is_stale, decide_input,
}

abbrev pub to_device : ℕ → Sent → Bool
to_device d x = x.device_id == d

decided_le :
    (d : ℕ) (i : StatusInput) (now : ℕ) (row : Device) (n : Service) (b : Bool)
    (o : Coalescer × CoalesceDecision)
    → (length (keep (to_device d) (send_decided i now row n b o).sent)
        ≤ length (keep (λ r. r.device_id == d) (row ∷ [])))
      × ((send_decided i now row n b o).service.store ≡ n.store)
unfolding send_decided
decided_le d i now row n false (c, decision) = (omega arith, refl)
decided_le d i now row n true (c, decision) = elim (Bool-cases decision.emit) [
  | inl e ↦ rw e (ground arith, refl)
  | inr e ↦ rw e (omega arith, refl)
]

-- The loop sends a device no more than it has rows, and leaves the store alone.
each_le :
    (d : ℕ) (i : StatusInput) (now : ℕ) (rows : List Device) (n : Service)
    → (length (keep (to_device d) (send_each i now rows n).sent)
        ≤ length (keep (λ r. r.device_id == d) rows))
      × ((send_each i now rows n).service.store ≡ n.store)
unfolding send_each send_one
each_le d i now [] n = (omega arith, refl)
each_le d i now (row ∷ rows) n =
    let here = send_one i now row n in
    let (le, same) =
      decided_le d i now row n (is_supported n row.platform)
        (decide_next n.coalescer (decide_input i now row)) in
    let (le', same') = each_le d i now rows here.service in
    let split =
      length-keep-append (to_device d) here.sent (send_each i now rows here.service).sent in
    let total = length-keep-append (λ r. r.device_id == d) (row ∷ []) rows in
    (omega (arith, le, le', split, total), same' ∙ same)

-- A status goes to a device once at most, and leaves the store alone.
fresh_le :
    (d : ℕ) (n : Service) (i : StatusInput)
    → IsRegistry n.store.devices
    → (length (keep (to_device d) (publish_fresh n i).sent) ≤ 1)
      × ((publish_fresh n i).service.store ≡ n.store)
unfolding publish_fresh
fresh_le d n i r = elim (Bool-cases (is_stale n n.store.now i.source_at)) [
  | inl e ↦ simp e (omega arith, refl)
  | inr e ↦ elim (Bool-cases i.is_safe) [
    | inr k ↦ simp (e, k) (omega arith, refl)
    | inl k ↦
        let rows = list_active_device_installs n.store.devices in
        let unique =
          sort_by-IsUnique (λ x. x.created_at) (λ x. x.device_id)
            (keep (λ x. not (is_some x.rejected)) n.store.devices)
            (keep-IsUnique (λ x. x.device_id) (λ x. not (is_some x.rejected)) n.store.devices
              r.unique_ids) in
        let one = IsUnique-le (λ x. x.device_id) d rows unique in
        let (le, same) = each_le d i n.store.now rows n in
        simp (e, k) (omega (arith, le, one), same)
  ]
]

-- A notification with the source event of its status.
pub record Delivery : Type 0 where
  pub source : Option ℕ
  pub sent : Sent

pub record Outcome : Type 0 where
  pub service : Service
  pub sent : List Delivery

abbrev pub deliveries : Option ℕ → Service × Result StoreErrorCode Publication → Outcome
deliveries source (n, ok p) = record {
  service = n;
  sent = map (λ x. record { source = source; sent = x }) p.sent;
}
deliveries source (n, err code) = record { service = n; sent = [] }

abbrev pub goes_to : ℕ → ℕ → Delivery → Bool
goes_to e d x = opt_eq x.source (some e) && to_device d x.sent

abbrev pub count_to : ℕ → ℕ → List Delivery → ℕ
count_to e d xs = length (keep (goes_to e d) xs)

count_le :
    (e d : ℕ) (source : Option ℕ) (xs : List Sent)
    → count_to e d (map (λ x. record { source = source; sent = x }) xs)
      ≤ length (keep (to_device d) xs)
count_le e d source [] = omega arith
count_le e d source (x ∷ xs) = ground (arith, count_le e d source xs)

count_other :
    (e d : ℕ) (source : Option ℕ) (xs : List Sent)
    → opt_eq source (some e) ≡ false
    → count_to e d (map (λ x. record { source = source; sent = x }) xs) ≤ 0
count_other e d source [] h = omega arith
count_other e d source (x ∷ xs) h = ground (arith, h, count_other e d source xs)

-- What holds of a step from a service to what it leaves and sends: the keys of the devices hold, the
-- event stays recorded, it is sent to the device once at most, not at all if it has been recorded, and
-- is recorded if it is sent.
pub record IsSound (e d since : ℕ) (n : Service) (o : Outcome) : Type 0 where
  pub registry : IsRegistry o.service.store.devices
  pub recorded : IsRecorded e since n.store.dedup → IsRecorded e since o.service.store.dedup
  pub at_most : count_to e d o.sent ≤ 1
  pub no_more : IsRecorded e since n.store.dedup → count_to e d o.sent ≤ 0
  pub after : (count_to e d o.sent ≤ 0) ⊎ IsRecorded e since o.service.store.dedup

module _ (e d since : ℕ) where
  pub nothing_sent :
      (n m : Service)
      → IsRegistry m.store.devices
      → (IsRecorded e since n.store.dedup → IsRecorded e since m.store.dedup)
      → IsSound e d since n (record { service = m; sent = [] })
  nothing_sent n m r k = record {
    registry = r;
    recorded = k;
    at_most = omega arith;
    no_more = λ _. omega arith;
    after = inl (omega arith);
  }

  fresh-IsSound :
      (n m : Service) (i : StatusInput) (source : Option ℕ)
      → IsRegistry m.store.devices
      → (IsRecorded e since n.store.dedup → IsRecorded e since m.store.dedup)
      → (opt_eq source (some e) ≡ true → IsRecorded e since m.store.dedup)
      → (opt_eq source (some e) ≡ true → IsRecorded e since n.store.dedup → true ≡ false)
      → IsSound e d since n
          (deliveries source ((publish_fresh m i).service, ok (publish_fresh m i)))
  fresh-IsSound n m i source r keeps now_known not_known =
      let p = publish_fresh m i in
      let (le, same) = fresh_le d m i r in
      let count = count_le e d source p.sent in
      let known : IsRecorded e since m.store.dedup → IsRecorded e since p.service.store.dedup =
        subst (λ s. IsRecorded e since m.store.dedup → IsRecorded e since s.dedup) (sym same)
          (λ k. k) in
      let none : opt_eq source (some e) ≡ false
          → count_to e d (deliveries source (p.service, ok p)).sent ≤ 0 =
        count_other e d source p.sent in
      record {
        registry = subst (λ s. IsRegistry s.devices) (sym same) r;
        recorded = λ k. known (keeps k);
        at_most = omega (arith, le, count);
        no_more = λ k. elim (Bool-cases (opt_eq source (some e))) [
          | inl h ↦ let bad = not_known h k in cc
          | inr h ↦ none h
        ];
        after = elim (Bool-cases (opt_eq source (some e))) [
          | inl h ↦ inr (known (now_known h))
          | inr h ↦ inl (none h)
        ];
      }

  recorded-IsSound :
      (n : Service) (i : StatusInput) (id : ℕ) (o : Store × Result StoreErrorCode (Unit {0}))
      → since ≤ n.store.now
      → IsRegistry n.store.devices
      → has_notification_dedup id n.store.dedup ≡ false
      → Concludes
          (λ t a.
            (t.devices ≡ n.store.devices)
            × (t.dedup
                ≡ n.store.dedup
                  ++ (record { source_event_id = id; created_at = n.store.now } ∷ [])))
          (λ t. (t.devices ≡ n.store.devices) × (t.dedup ≡ n.store.dedup))
          o
      → IsSound e d since n (deliveries (some id) (publish_recorded n i o))
  unfolding publish_recorded
  recorded-IsSound n i id (s, err code) le r new (devices, rows) =
      nothing_sent n (record n { store = s }) (subst IsRegistry (sym devices) r)
        (subst (IsRecorded e since) (sym rows))
  recorded-IsSound n i id (s, ok a) le r new (devices, rows) =
      fresh-IsSound n (record n { store = s }) i (some id) (subst IsRegistry (sym devices) r)
        (λ k. subst (IsRecorded e since) (sym rows) (
          IsRecorded-snoc e since n.store.dedup
            (record { source_event_id = id; created_at = n.store.now }) k))
        (λ h. subst (IsRecorded e since) (sym rows) (
          subst
            (λ x.
              IsRecorded e since
                (n.store.dedup ++ (record { source_event_id = x; created_at = n.store.now } ∷ [])))
            (sym ((==_iff id e).0 h)) (recorded_now e since n.store.now n.store.dedup le)))
        (λ h k.
          let known = recorded-has e since n.store.dedup k in
          let same = (==_iff id e).0 h in
          sym known ∙ ap (λ x. has_notification_dedup x n.store.dedup) (sym same) ∙ new)

  sourced-IsSound :
      (n : Service) (i : StatusInput) (source : Option ℕ)
      → since ≤ n.store.now
      → IsRegistry n.store.devices
      → IsSound e d since n (deliveries source (publish_sourced n i source))
  unfolding publish_sourced
  sourced-IsSound n i none le r =
      fresh-IsSound n n i none r (λ k. k) (λ h. let bad : false ≡ true = h in cc)
        (λ h k. let bad : false ≡ true = h in cc)
  sourced-IsSound n i (some id) le r = elim (Bool-cases (has_notification_dedup id n.store.dedup)) [
    | inl h ↦ simp h (nothing_sent n _ r (λ k. k))
    | inr h ↦ simp h (
        recorded-IsSound n i id (record_notification_dedup n.store id) le r h
          (record_notification_dedup-Concludes n.store id h))
  ]

  pub publish_status-IsSound :
      (n : Service) (i : StatusInput)
      → since ≤ n.store.now
      → IsRegistry n.store.devices
      → IsSound e d since n (deliveries i.source_event_id (publish_status n i))
  unfolding publish_status
  publish_status-IsSound n i le r = elim (Bool-cases n.suspended) [
    | inl h ↦ simp h (nothing_sent n _ r (λ k. k))
    | inr h ↦ simp h (sourced-IsSound n i i.source_event_id le r)
  ]
