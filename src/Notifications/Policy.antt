-- ===== src/Notifications/Policy.antt =====
-- packages/bridge/src/notifications/policy.ts: classifyEvent and shouldEmitAfterCoalesce.
pub mod Kinds
use pi_mob.Prelude.{
  ℕ, ◌+◌, ◌*◌, Bool, true, false, ◌&&◌, Option, none, some, ltb, leb, ◌==◌, if◌then◌else◌,
}

pub data NotificationKind : Type 0 where
  settled failed indeterminate needs_attention crash_loop : NotificationKind

abbrev pub kind_eq : NotificationKind → NotificationKind → Bool
kind_eq settled settled = true
kind_eq failed failed = true
kind_eq indeterminate indeterminate = true
kind_eq needs_attention needs_attention = true
kind_eq crash_loop crash_loop = true
kind_eq _ _ = false

-- The types of a raw event that the code names, and any other.
pub data EventType : Type 0 where
  turn_settled turn_failed turn_aborted turn_indeterminate turn_waiting_for_input : EventType
  session_state host_state : EventType
  other_type : ℕ → EventType

-- RawStatusEvent: whether its error code is `provider_interrupted`, its attention state
-- `needs_attention` and its runtime state `crash_loop`.
pub record RawStatusEvent : Type 0 where
  pub type : EventType
  pub is_interrupted : Bool
  pub wants_attention : Bool
  pub is_crash_loop : Bool

pub classify : EventType → RawStatusEvent → Option NotificationKind
classify turn_settled e = some settled
classify turn_failed e = if e.is_interrupted then none else some failed
classify turn_aborted e = none
classify turn_indeterminate e = some indeterminate
classify turn_waiting_for_input e = some needs_attention
classify session_state e =
    if e.wants_attention
    then some needs_attention
    else if e.is_crash_loop
    then some crash_loop
    else none
classify host_state e = if e.is_crash_loop then some crash_loop else none
classify (other_type n) e = none

-- `classifyEvent`.
pub classify_event : RawStatusEvent → Option NotificationKind
classify_event e = classify e.type e

pub data EmitReason : Type 0 where
  first_emit repeat_emit suppressed : EmitReason

abbrev pub is_kind : NotificationKind → Option NotificationKind → Bool
is_kind k none = false
is_kind k (some l) = kind_eq l k

-- `shouldEmitAfterCoalesce`.
pub should_emit_after_coalesce :
    NotificationKind
    → Option NotificationKind
    → (count now first_at min_interval_ms session_ceiling : ℕ) → Bool × EmitReason
should_emit_after_coalesce kind last_kind count now first_at min_interval_ms session_ceiling =
    if count == 0
    then (true, first_emit)
    else if leb session_ceiling count
    then (false, suppressed)
    else if kind_eq kind crash_loop && is_kind crash_loop last_kind
    then (if ltb now (first_at + min_interval_ms * 5)
        then (false, suppressed)
        else (true, repeat_emit))
    else if kind_eq kind needs_attention
        && (is_kind needs_attention last_kind && ltb now (first_at + min_interval_ms))
    then (false, suppressed)
    else (true, repeat_emit)
