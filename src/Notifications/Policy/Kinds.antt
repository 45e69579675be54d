-- ===== src/Notifications/Policy/Kinds.antt =====
-- packages/bridge/src/notifications/policy.ts: when a kind is pushed.
use pi_mob.Prelude.{
  ℕ, ◌+◌, ◌*◌, ◌≡◌, Bool, false, not, ◌&&◌, ◌||◌, Option, none, some, arith, ltb, leb, ◌==◌,
}
use pi_mob.Notifications.Policy.{
  NotificationKind, settled, failed, indeterminate, needs_attention, crash_loop, is_kind,
  should_emit_after_coalesce,
}

-- How long a repeated kind is held back, in minimal intervals; none for a kind that is not.
abbrev pub window : NotificationKind → Option ℕ
window crash_loop = some 5
window needs_attention = some 1
window _ = none

abbrev pub is_held_back : Option ℕ → ℕ → ℕ → ℕ → Bool
is_held_back none now first_at min_interval_ms = false
is_held_back (some n) now first_at min_interval_ms = ltb now (first_at + min_interval_ms * n)

-- A first notification is pushed. Any later one is pushed exactly below the session's ceiling, unless it
-- repeats the kind before it and that kind is held back: for five intervals after the first
-- notification for a crash loop, and for one for a need of attention.
pub should_emit_exact :
    (kind : NotificationKind) (last : Option NotificationKind)
    (count now first_at interval ceiling : ℕ)
    → (should_emit_after_coalesce kind last count now first_at interval ceiling).0 ≡ (
        (count == 0)
        || (not (leb ceiling count)
            && not (is_kind kind last && is_held_back (window kind) now first_at interval)))
unfolding should_emit_after_coalesce
should_emit_exact settled last count now first_at interval ceiling = ground arith
should_emit_exact failed last count now first_at interval ceiling = ground arith
should_emit_exact indeterminate last count now first_at interval ceiling = ground arith
should_emit_exact needs_attention last count now first_at interval ceiling = ground arith
should_emit_exact crash_loop last count now first_at interval ceiling = ground arith
