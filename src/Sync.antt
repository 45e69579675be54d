-- ===== src/Sync.antt =====
-- packages/bridge/src/core/domain.ts: StreamService and StreamContinuityTracker, with captureSnapshot
-- of packages/bridge/src/core/store.ts. Reads change no row, so only their results are kept.
pub mod Continuity
pub mod Parts
mod Tests
use pi_mob.Prelude.{
  ℕ, zero, suc, ◌+◌, Bool, true, false, not, ◌&&◌, ◌||◌, Option, none, some, List, [], ◌∷◌, ◌++◌,
  map, ltb, leb, ◌==◌, if◌then◌else◌, has, keep, length, Result, ok, err,
}
use pi_mob.Cursor.{is_canonical, value}
use pi_mob.Tables.{StreamId, host, session, stream_eq, StoredEvent, Stream}
use pi_mob.Store.{Store, Tx, transaction, store_error, not_found, StoreErrorCode}
use pi_mob.Store.Journal.{find_stream, list_events, Replay, read_replay}

pub data SyncError : Type 0 where
  store_failed : StoreErrorCode → SyncError
  cursor_invalid : SyncError

pub data SyncMode : Type 0 where
  current replay snapshot_required : SyncMode

pub record StreamSync : Type 0 where
  pub mode : SyncMode
  pub baseline : Option ℕ
  pub snapshot_parts : List (List ℕ)
  pub events : List StoredEvent
  pub current_cursor : ℕ

pub record Snapshot : Type 0 where
  pub baseline : ℕ
  pub current : ℕ
  pub events : List StoredEvent

capture_found : Option Stream → Tx Snapshot
capture_found none s = err (store_error not_found)
capture_found (some r) s = ok (
  s,
  record {
    baseline = r.current;
    current = r.current;
    events = list_events s r.stream_id r.current (some r.current);
  },
)

-- `captureSnapshot`, without the state that it reads from the table of sessions.
capture_snapshot : Store → StreamId → Store × Result StoreErrorCode Snapshot
capture_snapshot s id = transaction (λ t. capture_found (find_stream id t.streams) t) s

-- The loop that cuts the snapshot's text into parts: the parts so far, the fragment and its bytes.
-- `bytes` is the length of a character's UTF-8 encoding.
module _ (bytes : ℕ → ℕ) (max : ℕ) where
  cut_from : List (List ℕ) → List ℕ → ℕ → List ℕ → List (List ℕ)
  cut_from parts [] n [] = parts
  cut_from parts (c ∷ cs) n [] = parts ++ ((c ∷ cs) ∷ [])
  cut_from parts [] n (d ∷ ds) = cut_from parts (d ∷ []) (n + bytes d) ds
  cut_from parts (c ∷ cs) n (d ∷ ds) =
      let full = cut_from (parts ++ ((c ∷ cs) ∷ [])) (d ∷ []) (bytes d) ds in
      let room = cut_from parts ((c ∷ cs) ++ (d ∷ [])) (n + bytes d) ds in
      if ltb max (n + bytes d) then full else room

  -- The text `{}` stands for an empty snapshot.
  abbrev or_braces : List (List ℕ) → List (List ℕ)
  or_braces [] = (b'{' ∷ b'}' ∷ []) ∷ []
  or_braces (p ∷ ps) = p ∷ ps

  pub snapshot_parts : List ℕ → List (List ℕ)
  snapshot_parts json = or_braces (cut_from [] [] 0 json)

-- A subscription's stream, and whether its detail is `full`.
abbrev pub Subscription : Type 0
Subscription = StreamId × Bool

abbrev is_session : StreamId → Bool
is_session host = false
is_session (session n) = true

-- `validateSubscriptions`; true is a return, false a thrown `conflict`.
pub validate_subscriptions : List Subscription → Bool
validate_subscriptions streams =
    has (λ s. stream_eq s.0 host) streams
    && (leb (length (keep (λ s. s.1 && is_session s.0) streams)) 1
        && leb (length (keep (λ s. not s.1) streams)) 5)

module _ (transform : StoredEvent → StoredEvent) (parts : Store → List (List ℕ)) where
  snapshot_replay : Store → Snapshot → Result StoreErrorCode Replay → Result SyncError StreamSync
  snapshot_replay s snap (err code) = err (store_failed code)
  snapshot_replay s snap (ok r) = ok (record {
    mode = snapshot_required;
    baseline = some snap.baseline;
    snapshot_parts = parts s;
    events = map transform r.events;
    current_cursor = r.current;
  })

  snapshot_from : Store → StreamId → Result StoreErrorCode Snapshot → Result SyncError StreamSync
  snapshot_from s id (err code) = err (store_failed code)
  snapshot_from s id (ok snap) = snapshot_replay s snap (read_replay s id snap.baseline).1

  take_snapshot : Store → StreamId → Result SyncError StreamSync
  take_snapshot s id = snapshot_from s id (capture_snapshot s id).1

  sync_replay : Store → StreamId → ℕ → Result StoreErrorCode Replay → Result SyncError StreamSync
  sync_replay s id after (err code) = err (store_failed code)
  sync_replay s id after (ok r) =
      if after == r.current
      then ok (record {
        mode = current;
        baseline = none;
        snapshot_parts = [];
        events = [];
        current_cursor = r.current;
      })
      else if not (ltb after r.floor || ltb r.current after)
      then ok (record {
        mode = replay;
        baseline = none;
        snapshot_parts = [];
        events = map transform r.events;
        current_cursor = r.current;
      })
      else take_snapshot s id

  sync_cursor : Store → StreamId → Option (List ℕ) → Result SyncError StreamSync
  sync_cursor s id none = take_snapshot s id
  sync_cursor s id (some text) =
      if is_canonical text
      then sync_replay s id (value text) (read_replay s id (value text)).1
      else err cursor_invalid

  sync_found : Store → StreamId → Option (List ℕ) → Option Stream → Result SyncError StreamSync
  sync_found s id after none = err (store_failed not_found)
  sync_found s id after (some r) = sync_cursor s id after

  -- `sync`; `parts` makes the snapshot's parts.
  pub sync : Store → StreamId → Option (List ℕ) → Result SyncError StreamSync
  sync s id after = sync_found s id after (find_stream id s.streams)

-- StreamContinuityTracker, for one stream: its cursor, and the cursors applied with their events.
pub record Tracker : Type 0 where
  pub cursor : ℕ
  pub applied : List (ℕ × ℕ)

pub data ApplyResult : Type 0 where
  applied duplicate gap conflict : ApplyResult

abbrev seen_at : ℕ → List (ℕ × ℕ) → Option ℕ
seen_at c [] = none
seen_at c ((k, id) ∷ es) = if k == c then some id else seen_at c es

apply_unseen : Tracker → StoredEvent → Tracker × ApplyResult
apply_unseen t e =
    if e.cursor == t.cursor + 1
    then (record { cursor = e.cursor; applied = (e.cursor, e.event_id) ∷ t.applied }, applied)
    else (t, gap)

apply_seen : Tracker → StoredEvent → Option ℕ → Tracker × ApplyResult
apply_seen t e none = apply_unseen t e
apply_seen t e (some id) = (t, (if id == e.event_id then duplicate else conflict))

pub apply : Tracker → StoredEvent → Tracker × ApplyResult
apply t e = apply_seen t e (seen_at e.cursor t.applied)

pub reset : ℕ → Tracker
reset cursor = record { cursor = cursor; applied = [] }
