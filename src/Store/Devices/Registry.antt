-- ===== src/Store/Devices/Registry.antt =====
-- packages/bridge/src/core/store.ts: the keys of the table of devices, and that the operations on it
-- leave the published events alone.
use pi_mob.Prelude.{
  ℕ, ◌≤◌, ◌≡◌, refl, sym, ap, ◌∙◌, subst, Bool, true, false, not, ◌||◌, Option, none, some, List,
  [], ◌∷◌, ◌++◌, ◌==◌, first, keep, has, update, length, arith, Bool-cases, inl, inr, IsUnique,
  snoc-IsUnique, update-IsUnique, keep-IsUnique, keep-update-le, keep-snoc-le, keep-snoc_no, has-or,
  has-keep, some_inj, Result, ok, err,
}
use pi_mob.Tables.{Platform, platform_eq, apns, fcm, Device, DedupRow}
use pi_mob.Store.{Store, Fault}
use pi_mob.Store.Transactions.{Keeps, transaction-keeps}
use pi_mob.Store.Devices.{
  DeviceInput, has_device_id, is_install, find_device_install, new_device, retoken, insert_device,
  register_found, register_device_install, replace_found, replace_device_token, reject_found,
  mark_device_rejected, unregister_device_install, unregister_installation, touch_device_install,
  delete_devices, update_devices,
}

-- The keys of the table.
pub record IsRegistry (ds : List Device) : Type 0 where
  pub unique_ids : IsUnique (λ d. d.device_id) ds
  pub one_install : (i : ℕ) (p : Platform) → length (keep (is_install i p) ds) ≤ 1

keep-keep-le :
    (p q : Device → Bool) (ds : List Device) → length (keep p (keep q ds)) ≤ length (keep p ds)
keep-keep-le p q [] = omega arith
keep-keep-le p q (x ∷ xs) = ground (arith, keep-keep-le p q xs)

pub keep-IsRegistry :
    (test : Device → Bool) (ds : List Device) → IsRegistry ds → IsRegistry (keep test ds)
keep-IsRegistry test ds r = record {
  unique_ids = keep-IsUnique (λ d. d.device_id) test ds r.unique_ids;
  one_install =
      λ i p. let le = keep-keep-le (is_install i p) test ds in omega (arith, le, r.one_install i p);
}

pub update-IsRegistry :
    (test : Device → Bool) (f : Device → Device) (ds : List Device)
    → ((d : Device) → (f d).device_id ≡ d.device_id)
    → ((i : ℕ) (p : Platform) (d : Device) → is_install i p (f d) ≡ is_install i p d)
    → IsRegistry ds
    → IsRegistry (update test f ds)
update-IsRegistry test f ds g h r = record {
  unique_ids = update-IsUnique (λ d. d.device_id) test f ds g r.unique_ids;
  one_install = λ i p.
      let le = keep-update-le (is_install i p) test f ds (λ d k. h i p d ∙ k) in
      omega (arith, le, r.one_install i p);
}

platform_eq_iff : (p q : Platform) → platform_eq p q ≡ true → p ≡ q
platform_eq_iff apns apns h = refl
platform_eq_iff fcm fcm h = refl
platform_eq_iff apns fcm h = cc
platform_eq_iff fcm apns h = cc

pub insert-IsRegistry :
    (d : Device) (ds : List Device)
    → has (λ o. has_device_id d.device_id o || is_install d.installation_id d.platform o) ds ≡ false
    → IsRegistry ds
    → IsRegistry (ds ++ (d ∷ []))
insert-IsRegistry d ds free r =
    let parts =
      sym (has-or (has_device_id d.device_id) (is_install d.installation_id d.platform) ds)
      ∙ free in
    let no_id : has (has_device_id d.device_id) ds ≡ false = ground (arith, parts) in
    let no_install : has (is_install d.installation_id d.platform) ds ≡ false =
      ground (arith, parts) in
    let none = has-keep (is_install d.installation_id d.platform) ds no_install in
    record {
      unique_ids = snoc-IsUnique (λ o. o.device_id) ds d no_id r.unique_ids;
      one_install = λ i p. elim (Bool-cases (is_install i p d)) [
        | inl e ↦
            let same_i : d.installation_id ≡ i = ground (arith, e) in
            let same_p : d.platform ≡ p = platform_eq_iff d.platform p (ground (arith, e)) in
            let le : length (keep (is_install i p) ds) ≤ 0 =
              subst (λ q. length (keep (is_install i q) ds) ≤ 0) same_p
                (subst (λ j. length (keep (is_install j d.platform) ds) ≤ 0) same_i none) in
            let grown = keep-snoc-le (is_install i p) ds d in omega (arith, le, grown)
        | inr e ↦
            let same = keep-snoc_no (is_install i p) ds d e in
            omega (arith, same, r.one_install i p)
      ];
    }

update_none :
    (test : Device → Bool) (f g : Device → Device) (ds : List Device)
    → length (keep test ds) ≤ 0
    → update test f ds ≡ update test g ds
update_none test f g [] h = refl
update_none test f g (x ∷ xs) h = elim (Bool-cases (test x)) [
  | inl e ↦
      let bad : 1 ≤ 0 = omega (arith, rw e at h) in
      let absurd : true ≡ false = ground (arith, bad) in cc
  | inr e ↦ rw (e, update_none test f g xs (rw e at h))
]

-- The update of `registerDeviceInstall` hits the row that it has read, whose id it keeps.
reregistered :
    (token version now : ℕ) (test : Device → Bool) (old : Device) (ds : List Device)
    → length (keep test ds) ≤ 1
    → first test ds ≡ some old
    → update test (λ d. record (retoken token version old now d) { device_id = old.device_id }) ds
      ≡ update test (retoken token version old now) ds
reregistered token version now test old [] h e = cc
reregistered token version now test old (x ∷ xs) h e = elim (Bool-cases (test x)) [
  | inl k ↦
      let same : x ≡ old = some_inj (rw k at e) in
      let bound = rw k at h in
      let rest =
        update_none test
          (λ d. record (retoken token version old now d) { device_id = old.device_id })
          (retoken token version old now) xs (omega arith) in
      let row : record (retoken token version old now x) { device_id = old.device_id }
          ≡ retoken token version old now x =
        ap (λ n. record (retoken token version old now x) { device_id = n })
          (ap (λ d. d.device_id) (sym same)) in
      rw (k, rest) (ap (λ d. d ∷ update test (retoken token version old now) xs) row)
  | inr k ↦ rw (k, reregistered token version now test old xs (rw k at h) (rw k at e))
]

-- What every operation on the devices keeps: the keys, and the published events.
abbrev pub Registers : List DedupRow → Store → Type 0
Registers rows s = IsRegistry s.devices × (s.dedup ≡ rows)

insert-Keeps :
    (rows : List DedupRow) (d : Device) (s : Store)
    → Registers rows s
    → Keeps (Registers rows) (insert_device d s)
unfolding insert_device
insert-Keeps rows d s (r, e) =
    elim (Bool-cases (
      has (λ o. has_device_id d.device_id o || is_install d.installation_id d.platform o)
        s.devices)) [
          | inl k ↦ rw (k, Keeps) tt
          | inr k ↦ rw (k, Keeps) (insert-IsRegistry d s.devices k r, e)
        ]

register-Keeps :
    (rows : List DedupRow) (input : DeviceInput) (o : Option Device) (s : Store)
    → first (is_install input.installation_id input.platform) s.devices ≡ o
    → Registers rows s
    → Keeps (Registers rows) (register_found input o s)
unfolding register_found
register-Keeps rows input none s e h =
    then_keeps (insert_device (new_device input s.now) s)
      (insert-Keeps rows (new_device input s.now) s h)
  where
    then_keeps :
        (o : Result Fault (Store × Unit {0}))
        → Keeps (Registers rows) o
        → Keeps (Registers rows) {A = Option Device × Bool} (elim o [
          | ok (t, a) ↦ ok (t, (find_device_install input.device_id t.devices, false))
          | err f ↦ err f
        ])
    then_keeps (ok (t, a)) k = k
    then_keeps (err f) k = tt
register-Keeps rows input (some old) s e (r, same) =
    let test = is_install input.installation_id input.platform in
    let f = retoken input.push_token input.app_version old s.now in
    (
      subst IsRegistry
          (sym (
            reregistered input.push_token input.app_version s.now test old s.devices
              (r.one_install input.installation_id input.platform) e))
          (update-IsRegistry test f s.devices (λ d. refl) (λ i p d. refl) r),
      same,
    )

replace-Keeps :
    (rows : List DedupRow) (id token version : ℕ) (o : Option Device) (s : Store)
    → Registers rows s
    → Keeps (Registers rows) (replace_found id token version o s)
unfolding replace_found
replace-Keeps rows id token version none s h = h
replace-Keeps rows id token version (some old) s (r, same) = (
  update-IsRegistry (has_device_id id) (retoken token version old s.now) s.devices (λ d. refl)
      (λ i p d. refl) r,
  same,
)

reject-Keeps :
    (rows : List DedupRow) (id reason : ℕ) (o : Option Device) (s : Store)
    → Registers rows s
    → Keeps (Registers rows) (reject_found id reason o s)
unfolding reject_found
reject-Keeps rows id reason none s h = h
reject-Keeps rows id reason (some old) s (r, same) = (
  update-IsRegistry (has_device_id id) (λ d. record d { rejected = some (reason, s.now) }) s.devices
      (λ d. refl) (λ i p d. refl) r,
  same,
)

module _ (rows : List DedupRow) (s : Store) (h : Registers rows s) where
  pub register_device_install-Registers :
      (input : DeviceInput) → Registers rows (register_device_install s input).0
  unfolding register_device_install
  register_device_install-Registers input =
      transaction-keeps (Registers rows) (λ t p c w k. k)
        (λ t.
          register_found input (first (is_install input.installation_id input.platform) t.devices)
            t)
        s
        (λ t.
          register-Keeps rows input
            (first (is_install input.installation_id input.platform) t.devices) t refl)
        h

  pub replace_device_token-Registers :
      (id token version : ℕ) → Registers rows (replace_device_token s id token version).0
  unfolding replace_device_token
  replace_device_token-Registers id token version =
      transaction-keeps (Registers rows) (λ t p c w k. k)
        (λ t. replace_found id token version (find_device_install id t.devices) t) s
        (λ t. replace-Keeps rows id token version (find_device_install id t.devices) t) h

  pub mark_device_rejected-Registers :
      (id reason : ℕ) → Registers rows (mark_device_rejected s id reason).0
  unfolding mark_device_rejected
  mark_device_rejected-Registers id reason =
      transaction-keeps (Registers rows) (λ t p c w k. k)
        (λ t. reject_found id reason (find_device_install id t.devices) t) s
        (λ t. reject-Keeps rows id reason (find_device_install id t.devices) t) h

  pub unregister_device_install-Registers :
      (id : ℕ) → Registers rows (unregister_device_install s id).0
  unfolding unregister_device_install
  unregister_device_install-Registers id =
      transaction-keeps (Registers rows) (λ t p c w k. k) (delete_devices (has_device_id id)) s
        (λ t (r, same). (keep-IsRegistry (λ d. not (has_device_id id d)) t.devices r, same)) h

  pub unregister_installation-Registers : (i : ℕ) → Registers rows (unregister_installation s i).0
  unfolding unregister_installation
  unregister_installation-Registers i =
      transaction-keeps (Registers rows) (λ t p c w k. k)
        (delete_devices (λ d. d.installation_id == i)) s
        (λ t (r, same). (keep-IsRegistry (λ d. not (d.installation_id == i)) t.devices r, same)) h

  pub touch_device_install-Registers : (id : ℕ) → Registers rows (touch_device_install s id).0
  unfolding touch_device_install
  touch_device_install-Registers id =
      transaction-keeps (Registers rows) (λ t p c w k. k)
        (λ t. update_devices (has_device_id id) (λ d. record d { last_seen_at = t.now }) t) s
        (λ t (r, same). (
          update-IsRegistry (has_device_id id) (λ d. record d { last_seen_at = t.now }) t.devices
              (λ d. refl) (λ i p d. refl) r,
          same,
        ))
        h
