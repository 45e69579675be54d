-- ===== src/Notifications/Coalesce.antt =====
-- packages/bridge/src/notifications/coalesce.ts: class Coalescer. A key is a device and a session, or a
-- device and a minute; a map is the list of its entries in the order of their keys' first insertion.
pub mod Ceilings
pub mod Sessions
mod Tests
use pi_mob.Prelude.{
  ℕ, ◌+◌, ◌-◌, ◌*◌, ◌/◌, Bool, true, false, not, ◌&&◌, Option, none, some, List, [], ◌∷◌, ◌++◌, ltb,
  leb, ◌==◌, if◌then◌else◌, first, has, keep, take, sort_by, length,
}
use pi_mob.Notifications.Policy.{NotificationKind, kind_eq}

pub data CoalesceReason : Type 0 where
  first_one repeated rate_limited session_ceiling_hit per_device_ceiling : CoalesceReason

pub record CoalesceState : Type 0 where
  pub coalesce_key : ℕ × ℕ
  pub last_kind : Option NotificationKind
  pub last_notification_id : Option ℕ
  pub count : ℕ
  pub first_at : ℕ
  pub last_at : ℕ

pub record CoalesceDecision : Type 0 where
  pub emit : Bool
  pub reason : CoalesceReason
  pub replace_notification_id : Option ℕ
  pub next : CoalesceState

pub record CoalesceLimits : Type 0 where
  pub min_interval_ms : ℕ
  pub per_minute_ceiling : ℕ
  pub session_ceiling : ℕ

abbrev pub default_coalesce_limits : CoalesceLimits
default_coalesce_limits = record {
  min_interval_ms = 60000;
  per_minute_ceiling = 10;
  session_ceiling = 50;
}

pub record Coalescer : Type 0 where
  pub per_key : List ((ℕ × ℕ) × CoalesceState)
  pub per_device_minute : List ((ℕ × ℕ) × ℕ)
  pub limits : CoalesceLimits

abbrev pub key_eq : ℕ × ℕ → ℕ × ℕ → Bool
key_eq a b = a.0 == b.0 && a.1 == b.1

abbrev pub get : {A : Type 0} → ℕ × ℕ → List ((ℕ × ℕ) × A) → Option A
get k [] = none
get k ((l, a) ∷ es) = if key_eq l k then some a else get k es

-- `Map.set`, in place where the key is there.
abbrev pub put : {A : Type 0} → ℕ × ℕ → A → List ((ℕ × ℕ) × A) → List ((ℕ × ℕ) × A)
put k a [] = (k, a) ∷ []
put k a ((l, b) ∷ es) = if key_eq l k then (l, a) ∷ es else (l, b) ∷ put k a es

abbrev or_zero : Option ℕ → ℕ
or_zero none = 0
or_zero (some n) = n

pub record DecideInput : Type 0 where
  pub device_id : ℕ
  pub session_id : ℕ
  pub kind : NotificationKind
  pub notification_id : ℕ
  pub now : ℕ

abbrev pub minute_ms : ℕ
minute_ms = 60000

abbrev pub minute_of : DecideInput → ℕ × ℕ
minute_of i = (i.device_id, i.now / minute_ms)

abbrev pub key_of : DecideInput → ℕ × ℕ
key_of i = (i.device_id, i.session_id)

abbrev pub minute_count : ℕ × ℕ → Coalescer → ℕ
minute_count m c = or_zero (get m c.per_device_minute)

abbrev is_same_kind : NotificationKind → Option NotificationKind → Bool
is_same_kind k none = false
is_same_kind k (some l) = kind_eq l k

-- The decision that emits, with the state that it sets.
abbrev emitted :
    Coalescer → DecideInput → CoalesceReason → CoalesceState → Coalescer × CoalesceDecision
emitted c i reason next = (
  record c {
    per_key = put (key_of i) next c.per_key;
    per_device_minute = put (minute_of i) (minute_count (minute_of i) c + 1) c.per_device_minute;
  },
  record { emit = true; reason = reason; replace_notification_id = none; next = next },
)

abbrev kept_back : Coalescer → CoalesceReason → CoalesceState → Coalescer × CoalesceDecision
kept_back c reason next =
    (c, record { emit = false; reason = reason; replace_notification_id = none; next = next })

abbrev first_state : DecideInput → CoalesceState
first_state i = record {
  coalesce_key = key_of i;
  last_kind = some i.kind;
  last_notification_id = some i.notification_id;
  count = 1;
  first_at = i.now;
  last_at = i.now;
}

abbrev blank_state : DecideInput → CoalesceState
blank_state i = record {
  coalesce_key = key_of i;
  last_kind = none;
  last_notification_id = none;
  count = 0;
  first_at = i.now;
  last_at = i.now;
}

abbrev repeated_state : DecideInput → CoalesceState → CoalesceState
repeated_state i p = record {
  coalesce_key = key_of i;
  last_kind = some i.kind;
  last_notification_id = some i.notification_id;
  count = p.count + 1;
  first_at = p.first_at;
  last_at = i.now;
}

abbrev bumped_state : DecideInput → CoalesceState → CoalesceState
bumped_state i p = record p { count = p.count + 1; last_at = i.now }

-- The decision that keeps the notification before, and counts.
abbrev coalesced : Coalescer → DecideInput → CoalesceState → Coalescer × CoalesceDecision
coalesced c i p = (
  record c { per_key = put (key_of i) (bumped_state i p) c.per_key },
  record {
    emit = false;
    reason = rate_limited;
    replace_notification_id = p.last_notification_id;
    next = bumped_state i p;
  },
)

-- `decide`.
unfoldable pub decide :
    Coalescer → DecideInput → Option CoalesceState → Coalescer × CoalesceDecision
decide c i none =
    if leb c.limits.per_minute_ceiling (minute_count (minute_of i) c)
    then kept_back c per_device_ceiling (blank_state i)
    else emitted c i first_one (first_state i)
decide c i (some p) =
    if leb c.limits.session_ceiling p.count
    then kept_back c session_ceiling_hit p
    else if is_same_kind i.kind p.last_kind && ltb i.now (p.last_at + c.limits.min_interval_ms)
    then coalesced c i p
    else if leb c.limits.per_minute_ceiling (minute_count (minute_of i) c)
    then kept_back c per_device_ceiling p
    else emitted c i repeated (repeated_state i p)

-- `snapshot`.
unfoldable pub snapshot : Coalescer → ℕ → ℕ → Option CoalesceState
snapshot c device session = get (device, session) c.per_key

-- The decision of `publishStatus` for one device: on the state of its key.
unfoldable pub decide_next : Coalescer → DecideInput → Coalescer × CoalesceDecision
decide_next c i = decide c i (snapshot c i.device_id i.session_id)

-- `drop`.
pub drop_key : Coalescer → ℕ → ℕ → Coalescer
drop_key c device session = record c {
  per_key = keep (λ e. not (key_eq e.0 (device, session))) c.per_key;
}

abbrev retention_ms : ℕ
retention_ms = 5 * 60000

abbrev max_keys : ℕ
max_keys = 10000

abbrev without :
    List ((ℕ × ℕ) × CoalesceState) → List ((ℕ × ℕ) × CoalesceState) → List ((ℕ × ℕ) × CoalesceState)
without olds es = keep (λ e. not (has (λ o. key_eq o.0 e.0) olds)) es

-- `sweep`: the keys that are stale, the oldest above the bound, and the minutes that are past.
unfoldable pub sweep : Coalescer → ℕ → Coalescer
sweep c now =
    let fresh = keep (λ e. not (ltb (e.1.last_at + retention_ms) now)) c.per_key in
    let oldest = take (length fresh - max_keys) (sort_by (λ e. e.1.last_at) fresh) in
    record c {
      per_key = if ltb max_keys (length fresh) then without oldest fresh else fresh;
      per_device_minute =
          keep (λ e. not (ltb e.0.1 ((now - retention_ms) / minute_ms))) c.per_device_minute;
    }
