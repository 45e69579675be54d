-- ===== src/Sync/Continuity.antt =====
-- packages/bridge/src/core/domain.ts: a client that follows `sync` meets no gap.
use pi_mob.Prelude.{
  ℕ, suc, ◌+◌, ◌≤◌, ◌<◌, ◌≡◌, refl, Bool, true, false, ◌||◌, Option, none, some, List, [], ◌∷◌, map,
  arith, ltb, ◌==◌, if◌then◌else◌, length, Result, ok, err, Run, All, All-map, sym, subst, ap, ◌∙◌,
  Bool-cases, inl, inr, Option-cases,
}
use pi_mob.Cursor.{is_canonical, value}
use pi_mob.Tables.{StreamId, StoredEvent, Stream}
use pi_mob.Store.{Store, transaction}
use pi_mob.Store.Journal.{find_stream, list_events}
use pi_mob.Store.Journal.Invariant.{IsConsistent, find_stream_id}
use pi_mob.Store.Journal.Reads.{list_events-Run, read_replay-ok}
use pi_mob.Sync.{
  StreamSync, SyncError, snapshot_required, capture_snapshot, capture_found, snapshot_replay,
  snapshot_from, take_snapshot, sync_replay, sync_cursor, sync_found, sync, Tracker, ApplyResult,
  applied, duplicate, gap, conflict, seen_at, apply_unseen, apply_seen, apply, reset,
}

-- A tracker that has applied no cursor beyond its own.
abbrev pub IsBehind : Tracker → Type 0
IsBehind t = All (λ p. p.0 ≤ t.cursor) t.applied

seen_at-none : (c : ℕ) (ps : List (ℕ × ℕ)) → All (λ p. p.0 < c) ps → seen_at c ps ≡ none
seen_at-none c [] h = refl
seen_at-none c ((k, id) ∷ ps) h = ground (arith, seen_at-none c ps h.1)

-- Whether every result is `applied`.
abbrev all_applied : ApplyResult → Tracker × Bool → Tracker × Bool
all_applied applied o = o
all_applied _ (t, b) = (t, false)

-- The events of a list one after another, and whether each is applied.
abbrev pub apply_all : Tracker → List StoredEvent → Tracker × Bool
apply_all t [] = (t, true)
apply_all t (e ∷ es) = all_applied (apply t e).1 (apply_all (apply t e).0 es)

-- The next event is applied.
apply-next :
    (t : Tracker) (e : StoredEvent)
    → IsBehind t
    → e.cursor ≡ t.cursor + 1
    → apply t e
      ≡ (record { cursor = e.cursor; applied = (e.cursor, e.event_id) ∷ t.applied }, applied)
unfolding apply apply_seen apply_unseen
apply-next t e h at =
    rw
      (
        seen_at-none e.cursor t.applied
            (All-map (λ p (k : p.0 ≤ t.cursor). omega arith) t.applied h),
        apply_seen,
      )
      (ground arith)

-- From a tracker's cursor, the events of the cursors behind it are all applied.
pub apply_all-Run :
    (t : Tracker) (es : List StoredEvent)
    → IsBehind t
    → Run (λ e. e.cursor) t.cursor es
    → ((apply_all t es).1 ≡ true) × ((apply_all t es).0.cursor ≡ t.cursor + length es)
apply_all-Run t [] h r = (refl, omega arith)
apply_all-Run t (e ∷ es) h r =
    let t' : Tracker = record { cursor = e.cursor; applied = (e.cursor, e.event_id) ∷ t.applied } in
    let behind : IsBehind t' =
      (omega arith, All-map (λ p (k : p.0 ≤ t.cursor). omega arith) t.applied h) in
    let ih = apply_all-Run t' es behind (subst (λ c. Run (λ e. e.cursor) c es) (sym r.0) r.1) in
    rw (apply-next t e h r.0) (ih.0, omega arith)

Run-map :
    (f : StoredEvent → StoredEvent) (n : ℕ) (es : List StoredEvent)
    → ((e : StoredEvent) → (f e).cursor ≡ e.cursor)
    → Run (λ e. e.cursor) n es
    → Run (λ e. e.cursor) n (map f es) × (length (map f es) ≡ length es)
Run-map f n [] h r = (tt, refl)
Run-map f n (e ∷ es) h r = let ih = Run-map f (n + 1) es h r.1 in ((h e ∙ r.0, ih.0), ap suc ih.1)

abbrev base_or : Option ℕ → ℕ → ℕ
base_or none n = n
base_or (some b) n = b

-- The cursor from which the client reads on: the baseline of a snapshot, or its own.
abbrev pub start_of : StreamSync → ℕ → ℕ
start_of o after = base_or o.baseline after

-- What `sync` promises to a client at the cursor `after`.
abbrev pub Continues : Stream → ℕ → Result SyncError StreamSync → Type 0
Continues r after (err e) = ⊥
Continues r after (ok o) =
    Run (λ e. e.cursor) (start_of o after) o.events
    × (start_of o after + length o.events ≡ r.current)
    × (o.current_cursor ≡ r.current)

module _ (transform : StoredEvent → StoredEvent) (parts : Store → List (List ℕ))
    (keeps_cursor : (e : StoredEvent) → (transform e).cursor ≡ e.cursor) (s : Store) (id : StreamId)
    (r : Stream) (c : IsConsistent s) (writes : s.writable ≡ true)
    (open_store : s.maintenance ≡ false) (found : find_stream id s.streams ≡ some r) where
  abbrev later : ℕ → List StoredEvent
  later after = map transform (list_events s id after (some r.current))

  capture_snapshot-ok :
      (capture_snapshot s id).1
      ≡ ok (record {
        baseline = r.current;
        current = r.current;
        events = list_events s id r.current (some r.current);
      })
  unfolding capture_snapshot capture_found transaction list_events
  capture_snapshot-ok = simp (writes, open_store, found, find_stream_id id s.streams r found)

  take_snapshot-ok :
      take_snapshot transform parts s id
      ≡ ok (record {
        mode = snapshot_required;
        baseline = some r.current;
        snapshot_parts = parts s;
        events = later r.current;
        current_cursor = r.current;
      })
  unfolding take_snapshot snapshot_from snapshot_replay
  take_snapshot-ok = rw (
    capture_snapshot-ok,
    snapshot_from,
    read_replay-ok s id r r.current writes open_store found,
    snapshot_replay,
  )

  later-Run :
      (after : ℕ)
      → r.floor ≤ after
      → after ≤ r.current
      → Run (λ e. e.cursor) after (later after) × (after + length (later after) ≡ r.current)
  later-Run after low high =
      let (run, len) = list_events-Run s id r after c found low high in
      let (run', len') = Run-map transform after _ keeps_cursor run in
      (run', ap (λ (n : ℕ). after + n) len' ∙ len)

  floor-le-current : r.floor ≤ r.current
  floor-le-current = omega (arith, (c.ordered id r found).1)

  snapshot_Continues : (after : ℕ) → Continues r after (take_snapshot transform parts s id)
  snapshot_Continues after =
      let (run, len) = later-Run r.current floor-le-current (omega arith) in
      rw take_snapshot-ok (run, len, refl)

  sync_replay-Continues :
      (after : ℕ)
      → Continues r after (
          sync_replay transform parts s id after (
            ok (record {
              current = r.current;
              floor = r.floor;
              events = list_events s id after (some r.current);
            })))
  unfolding sync_replay
  sync_replay-Continues after = elim (Bool-cases (after == r.current)) [
    | inl p ↦ rw p (tt, ground arith, refl)
    | inr p ↦ elim (Bool-cases (ltb after r.floor || ltb r.current after)) [
      | inl q ↦ rw (p, q) (snapshot_Continues after)
      | inr q ↦
          let (run, len) = later-Run after (ground arith) (ground arith) in
          rw (p, q) (run, len, refl)
    ]
  ]

  sync-Continues :
      (text : List ℕ)
      → is_canonical text ≡ true
      → Continues r (value text) (sync transform parts s id (some text))
  unfolding sync sync_found sync_cursor
  sync-Continues text h =
      rw (found, sync_found, h, read_replay-ok s id r (value text) writes open_store found)
        (sync_replay-Continues (value text))

  sync-Continues-none : (after : ℕ) → Continues r after (sync transform parts s id none)
  unfolding sync sync_found sync_cursor
  sync-Continues-none after = rw (found, sync_found) (snapshot_Continues after)

  -- What the client does with the result: it takes the baseline, if there is one, and then applies
  -- the events.
  abbrev pub restart : Tracker → Option ℕ → Tracker
  restart t none = t
  restart t (some b) = reset b

  abbrev pub Applies : Tracker → Result SyncError StreamSync → Type 0
  Applies t (err e) = ⊥
  Applies t (ok o) =
      ((apply_all (restart t o.baseline) o.events).1 ≡ true)
      × ((apply_all (restart t o.baseline) o.events).0.cursor ≡ r.current)
      × (o.current_cursor ≡ r.current)

  -- A text that stands for the tracker's cursor, or no text.
  abbrev pub IsCursorOf : Tracker → Option (List ℕ) → Type 0
  IsCursorOf t none = Unit
  IsCursorOf t (some text) = (is_canonical text ≡ true) × (value text ≡ t.cursor)

  restarted :
      (t : Tracker) (b : Option ℕ) (es : List StoredEvent)
      → IsBehind t
      → Run (λ e. e.cursor) (base_or b t.cursor) es
      → ((apply_all (restart t b) es).1 ≡ true)
        × ((apply_all (restart t b) es).0.cursor ≡ base_or b t.cursor + length es)
  unfolding reset
  restarted t none es h run = apply_all-Run t es h run
  restarted t (some b) es h run = apply_all-Run (reset b) es tt run

  Continues-Applies :
      (t : Tracker) (o : Result SyncError StreamSync)
      → IsBehind t
      → Continues r t.cursor o
      → Applies t o
  Continues-Applies t (err e) h c = c
  Continues-Applies t (ok o) h (run, len, now) =
      let (all, reached) = restarted t o.baseline o.events h run in (all, reached ∙ len, now)

  -- On a consistent journal of a store that takes writes, with a transformation that keeps cursors: a
  -- client that has applied nothing beyond its own cursor, syncs a stream that exists from that cursor
  -- or from none, restarts at the baseline if it gets one, and applies the events, meets no gap,
  -- duplicate or conflict, and ends at the stream's current cursor.
  pub sync-Applies :
      (t : Tracker) (after : Option (List ℕ))
      → IsBehind t
      → IsCursorOf t after
      → Applies t (sync transform parts s id after)
  sync-Applies t none h k =
      Continues-Applies t (sync transform parts s id none) h (sync-Continues-none t.cursor)
  sync-Applies t (some text) h (canonical, at) =
      Continues-Applies t (sync transform parts s id (some text)) h (
        subst (λ n. Continues r n (sync transform parts s id (some text))) at
          (sync-Continues text canonical))

-- What a tracker says of an event that is not the next one.
abbrev pub unapplied : ℕ → Option ℕ → ApplyResult
unapplied id none = gap
unapplied id (some k) = if k == id then duplicate else conflict

-- A tracker that has applied no cursor beyond its own applies exactly the event at the next cursor,
-- and moves on to it. Of any other event it says a duplicate if it applied that very event at the
-- cursor, a conflict if it applied another one there, and a gap if none, and stays as it was.
pub apply_exact :
    (t : Tracker) (e : StoredEvent)
    → IsBehind t
    → apply t e ≡ (
        if e.cursor == t.cursor + 1
        then (record { cursor = e.cursor; applied = (e.cursor, e.event_id) ∷ t.applied }, applied)
        else (t, unapplied e.event_id (seen_at e.cursor t.applied)))
unfolding apply apply_seen apply_unseen
apply_exact t e h = elim (Bool-cases (e.cursor == t.cursor + 1)) [
  | inl p ↦
      let unseen =
        seen_at-none e.cursor t.applied
          (All-map (λ q (k : q.0 ≤ t.cursor). ground (arith, p, k)) t.applied h) in
      rw (unseen, apply_seen, p) refl
  | inr p ↦ elim (Option-cases (seen_at e.cursor t.applied)) [
    | inl q ↦ rw (q, apply_seen, p) refl
    | inr (id, q) ↦ rw (q, apply_seen, p) refl
  ]
]
