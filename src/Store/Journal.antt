-- ===== src/Store/Journal.antt =====
-- packages/bridge/src/core/store.ts: streams and the event journal.
pub mod Invariant
pub mod Append
pub mod Reads
pub mod Pages
pub mod Prefix
pub mod Traversal
pub mod Tests
use pi_mob.Prelude.{
  ℕ, zero, suc, ◌+◌, ◌≡◌, Bool, true, false, not, ◌&&◌, ◌||◌, Option, none, some, List, [], ◌∷◌,
  ◌++◌, ltb, leb, ◌==◌, if◌then◌else◌, first, keep, has, update, sort_by, reverse, is_some, Result,
  ok, err, length, take,
}
use mathlib.Core.Logic.{ite}
use pi_mob.Tables.{
  StreamId, host, session, stream_eq, Content, Content-discrete, StoredEvent, Stream,
}
use pi_mob.Store.{
  Store, Tx, transaction, conflict, not_found, StoreErrorCode, broken_constraint, store_error,
  Fault,
}

abbrev pub find_stream : StreamId → List Stream → Option Stream
find_stream id = first (λ r. stream_eq r.stream_id id)

abbrev pub find_event : ℕ → List StoredEvent → Option StoredEvent
find_event id = first (λ e. e.event_id == id)

abbrev pub events_on : StreamId → List StoredEvent → List StoredEvent
events_on id = keep (λ e. stream_eq e.stream_id id)

-- `INSERT OR IGNORE INTO sessions`.
ensure_session_tx : ℕ → Tx (Unit {0})
ensure_session_tx id s = ok (
  (if has (λ n. n == id) s.sessions then s else record s { sessions = s.sessions ++ (id ∷ []) }),
  tt,
)

pub ensure_session : Store → ℕ → Store × Result StoreErrorCode (Unit {0})
ensure_session s id = transaction (ensure_session_tx id) s

abbrev opt_session_eq : Option ℕ → Option ℕ → Bool
opt_session_eq (some a) (some b) = a == b
opt_session_eq _ _ = false

abbrev is_known : Option ℕ → List ℕ → Bool
is_known none sessions = true
is_known (some n) sessions = has (λ m. m == n) sessions

-- `INSERT OR IGNORE INTO streams`: the row is ignored if its identifier is taken, or its session has
-- a stream; the session of a row that is not ignored must exist.
add_stream : StreamId → Option ℕ → Tx (Unit {0})
add_stream id sid s =
    if has (λ r. stream_eq r.stream_id id || opt_session_eq r.session_id sid) s.streams
    then ok (s, tt)
    else if is_known sid s.sessions
    then ok (
      record s {
        streams =
            s.streams ++ (record { stream_id = id; session_id = sid; current = 0; floor = 0 } ∷ []);
      },
      tt,
    )
    else err broken_constraint

-- The flag is the scope `session`, which has a session id.
ensure_stream_tx : StreamId → Bool → Option ℕ → Tx (Unit {0})
ensure_stream_tx id false sid s = add_stream id none s
ensure_stream_tx id true none s = err (store_error conflict)
ensure_stream_tx id true (some n) s = add_stream id (some n) s

pub ensure_stream : Store → StreamId → Bool → Option ℕ → Store × Result StoreErrorCode (Unit {0})
ensure_stream s id scope sid = transaction (ensure_stream_tx id scope sid) s

-- `INSERT INTO events`: the identity is UNIQUE, and so is a cursor of a stream.
unfoldable pub insert_event : StoredEvent → Tx (Unit {0})
insert_event e s =
    if has
      (λ o.
        (o.event_id == e.event_id) || (stream_eq o.stream_id e.stream_id && o.cursor == e.cursor))
      s.events
    then err broken_constraint
    else ok (record s { events = s.events ++ (e ∷ []) }, tt)

unfoldable pub append_found : StreamId → Content → ℕ → Option Stream → Tx StoredEvent
append_found id content event_id none s = err (store_error not_found)
append_found id content event_id (some r) s =
    let e : StoredEvent = record {
      event_id = event_id;
      stream_id = id;
      cursor = r.current + 1;
      content = content;
      created_at = s.now;
    } in
    let s' = record s {
      streams =
          update (λ o. stream_eq o.stream_id id) (λ o. record o { current = r.current + 1 })
            s.streams;
    } in
    elim (insert_event e s') [
      | err f ↦ err f
      | ok (t, _) ↦ ok (record t { collecting = t.collecting ++ (e ∷ []) }, e)
    ]

-- `appendEventTx`, given the id that `uuid()` returns or the caller chooses.
unfoldable pub append_event_tx : StreamId → Content → ℕ → Tx StoredEvent
append_event_tx id content event_id s =
    append_found id content event_id (find_stream id s.streams) s

pub append_event : Store → StreamId → Content → ℕ → Store × Result StoreErrorCode StoredEvent
append_event s id content event_id = transaction (append_event_tx id content event_id) s

append_known : StreamId → Content → ℕ → Option StoredEvent → Tx StoredEvent
append_known id content event_id none s = append_event_tx id content event_id s
append_known id content event_id (some e) s =
    if stream_eq e.stream_id id
    then ite (Content-discrete e.content content) (ok (s, e)) (err (store_error conflict))
    else err (store_error conflict)

-- The empty identity is refused, which is 0 here.
pub append_event_idempotent :
    Store → StreamId → Content → ℕ → Store × Result StoreErrorCode StoredEvent
append_event_idempotent s id content event_id =
    if event_id == 0
    then (s, err conflict)
    else transaction (λ t. append_known id content event_id (find_event event_id t.events) t) s

abbrev up_to : Option ℕ → ℕ → Bool
up_to none cursor = true
up_to (some through) cursor = leb cursor through

-- `listEvents`, over canonical cursors.
unfoldable pub list_events : Store → StreamId → ℕ → Option ℕ → List StoredEvent
list_events s id after through =
    sort_by (λ e. e.cursor)
      (keep (λ e. stream_eq e.stream_id id && (ltb after e.cursor && up_to through e.cursor))
        s.events)

pub record Page : Type 0 where
  pub items : List StoredEvent
  pub snapshot_revision : ℕ
  pub next_cursor : Option ℕ

abbrev last_cursor : List StoredEvent → Option ℕ
last_cursor [] = none
last_cursor (e ∷ []) = some e.cursor
last_cursor (e ∷ f ∷ es) = last_cursor (f ∷ es)

abbrev or_else : Option ℕ → ℕ → ℕ
or_else none d = d
or_else (some n) d = n

page_found : ℕ → ℕ → Option ℕ → Option Stream → Tx Page
page_found size after through none s = err (store_error not_found)
page_found size after through (some r) s =
    let limit = or_else through r.current in
    let rows = take (size + 1) (list_events s r.stream_id after (some limit)) in
    let items = take size rows in
    ok (
      s,
      record {
        items = items;
        snapshot_revision = limit;
        next_cursor = if ltb size (length rows) then last_cursor items else none;
      },
    )

abbrev max_event_page_size : ℕ
max_event_page_size = 100

-- `pageEvents`.
pub page_events : Store → StreamId → ℕ → ℕ → Option ℕ → Store × Result StoreErrorCode Page
page_events s id size after through =
    if leb 1 size && leb size max_event_page_size
    then transaction (λ t. page_found size after through (find_stream id t.streams) t) s
    else (s, err conflict)

pub record Replay : Type 0 where
  pub current : ℕ
  pub floor : ℕ
  pub events : List StoredEvent

read_found : ℕ → Option Stream → Tx Replay
read_found after none s = err (store_error not_found)
read_found after (some r) s = ok (
  s,
  record {
    current = r.current;
    floor = r.floor;
    events = list_events s r.stream_id after (some r.current);
  },
)

-- `readReplay`.
pub read_replay : Store → StreamId → ℕ → Store × Result StoreErrorCode Replay
read_replay s id after = transaction (λ t. read_found after (find_stream id t.streams) t) s
