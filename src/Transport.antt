-- ===== src/Transport.antt =====
-- packages/bridge/src/session-events/canonical-event-transport.ts: subscriptions to a session's log,
-- with pages of replay and live delivery. A wire event is kept as its record.
pub mod Paging
pub mod Subscribing
pub mod CatchUp
pub mod Live
mod Tests
use pi_mob.Prelude.{
  ℕ, zero, suc, ◌+◌, ◌-◌, ◌*◌, Bool, true, false, not, ◌&&◌, Option, none, some, List, [], ◌∷◌,
  ◌++◌, ltb, leb, ◌==◌, if◌then◌else◌, first, has, keep, every, length, drop, sort_by, Result, ok,
  err,
}
use pi_mob.Tables.{CanonicalRecord}
use pi_mob.Store.{Store}
use pi_mob.SessionLog.{read_after, latest_sequence}

-- CanonicalEventSubscription, with its connection.
pub record Subscription : Type 0 where
  pub connection_id : ℕ
  pub session_id : ℕ
  pub last_applied_sequence : ℕ
  pub replay_in_flight : Bool
  pub pending : List CanonicalRecord

-- The transport: its subscriptions, and what `onEvent` was called with, for which connection.
pub record Transport : Type 0 where
  pub subscriptions : List Subscription
  pub sent : List (ℕ × CanonicalRecord)

pub record ReplayResult : Type 0 where
  pub events : List CanonicalRecord
  pub latest_sequence : ℕ
  pub complete : Bool

pub data TransportError : Type 0 where
  cursor_mismatch : TransportError
  sequence_gap : TransportError

abbrev default_replay_max_bytes : ℕ
default_replay_max_bytes = 512 * 1024

-- The replay so far: its last sequence, its records and their bytes.
pub record Page : Type 0 where
  pub cursor : ℕ
  pub replay : List CanonicalRecord
  pub replay_bytes : ℕ

abbrev pub is_for : ℕ → ℕ → Subscription → Bool
is_for connection session u = u.connection_id == connection && u.session_id == session

abbrev pub find_subscription : ℕ → ℕ → Transport → Option Subscription
find_subscription connection session t = first (is_for connection session) t.subscriptions

-- `subscriptions.set` and `perSession.set`, whose maps keep the place of a key that they have: the
-- list has the connections in their order, and each with its sessions in theirs.
abbrev pub set_subscription : Subscription → List Subscription → List Subscription
set_subscription u [] = u ∷ []
set_subscription u (o ∷ os) =
    let rest = set_subscription u os in
    if is_for u.connection_id u.session_id o
    then u ∷ os
    else if o.connection_id == u.connection_id
        && not (has (λ v. v.connection_id == u.connection_id) os)
    then o ∷ (u ∷ os)
    else o ∷ rest

-- `disconnect`.
pub disconnect : Transport → ℕ → Transport
disconnect t connection = record t {
  subscriptions = keep (λ u. not (u.connection_id == connection)) t.subscriptions;
}

-- The bytes of a record's wire event, and the options of the transport.
module _ (bytes : CanonicalRecord → ℕ) (batch limit : ℕ) where
  abbrev is_over : Page → CanonicalRecord → Bool
  is_over p r = ltb 0 (length p.replay) && ltb default_replay_max_bytes (p.replay_bytes + bytes r)

  abbrev taken : Page → CanonicalRecord → Page
  taken p r = record {
    cursor = r.sequence;
    replay = p.replay ++ (r ∷ []);
    replay_bytes = p.replay_bytes + bytes r;
  }

  -- The loop over the durable page: `err` is a gap, with the page up to it.
  pub replay_page : Page → List CanonicalRecord → Result Page Page
  replay_page p [] = ok p
  replay_page p (r ∷ rs) =
      let rest = replay_page (taken p r) rs in
      if not (r.sequence == p.cursor + 1) then err p else if is_over p r then ok p else rest

  abbrev retain :
      CanonicalRecord
      → Result Page (Page × List CanonicalRecord)
      → Result Page (Page × List CanonicalRecord)
  retain r (ok (p, rs)) = ok (p, r ∷ rs)
  retain r (err p) = err p

  -- The loop over the buffered records, with those that are retained.
  drain : Page → List CanonicalRecord → Result Page (Page × List CanonicalRecord)
  drain p [] = ok (p, [])
  drain p (r ∷ rs) =
      let skipped = drain p rs in
      let rest = drain (taken p r) rs in
      if leb r.sequence p.cursor
      then skipped
      else if not (r.sequence == p.cursor + 1)
      then err p
      else if is_over p r
      then retain r skipped
      else rest

  pub drain_short : Page → ℕ → List CanonicalRecord → Result Page (Page × List CanonicalRecord)
  drain_short p n pending =
      if length p.replay == n && ltb (length p.replay) batch
      then drain p (sort_by (λ r. r.sequence) pending)
      else ok (p, pending)

  abbrev put : Transport → Subscription → Transport
  put t u = record t { subscriptions = set_subscription u t.subscriptions }

  pub is_complete : Page → List CanonicalRecord → ℕ → Bool
  is_complete p pending latest = every (λ r. leb r.sequence p.cursor) pending && leb latest p.cursor

  drained :
      Transport
      → Store
      → Subscription
      → Result Page (Page × List CanonicalRecord)
      → Transport × Result TransportError ReplayResult
  drained t s u (err p) = (
    put t (record u { last_applied_sequence = p.cursor; replay_in_flight = false }),
    err sequence_gap,
  )
  drained t s u (ok (p, pending)) =
      let latest = latest_sequence s u.session_id in
      (
        put t (record u {
          last_applied_sequence = p.cursor;
          pending = pending;
          replay_in_flight = not (is_complete p pending latest);
        }),
        ok (record {
          events = p.replay;
          latest_sequence = latest;
          complete = is_complete p pending latest;
        }),
      )

  paged :
      Transport
      → Store
      → Subscription
      → ℕ
      → Result Page Page
      → Transport × Result TransportError ReplayResult
  paged t s u n (err p) = (
    put t (record u { last_applied_sequence = p.cursor; replay_in_flight = false }),
    err sequence_gap,
  )
  paged t s u n (ok p) = drained t s u (drain_short p n u.pending)

  pub subscribe_with :
      Transport → Store → Subscription → ℕ → Transport × Result TransportError ReplayResult
  subscribe_with t s u after =
      let page = read_after s u.session_id after (some batch) in
      paged t s u (length page)
        (replay_page (record { cursor = after; replay = []; replay_bytes = 0 }) page)

  abbrev fresh : ℕ → ℕ → ℕ → Subscription
  fresh connection session after = record {
    connection_id = connection;
    session_id = session;
    last_applied_sequence = after;
    replay_in_flight = true;
    pending = [];
  }

  subscribe_found :
      Transport
      → Store
      → ℕ
      → ℕ
      → ℕ
      → Option Subscription
      → Transport × Result TransportError ReplayResult
  subscribe_found t s connection session after none =
      subscribe_with t s (fresh connection session after) after
  subscribe_found t s connection session after (some u) =
      if u.replay_in_flight
      then (if after == u.last_applied_sequence
          then subscribe_with t s u after
          else (t, err cursor_mismatch))
      else subscribe_with t s (fresh connection session after) after

  -- `subscribe`.
  pub subscribe : Transport → Store → ℕ → ℕ → ℕ → Transport × Result TransportError ReplayResult
  subscribe t s connection session after =
      subscribe_found t s connection session after (find_subscription connection session t)

  abbrev shifted : List CanonicalRecord → List CanonicalRecord
  shifted rs = if leb limit (length rs) then drop 1 rs else rs

  -- One subscription's part of `deliverLive`, and whether `onEvent` is called.
  pub deliver_to : CanonicalRecord → Subscription → Subscription × Bool
  deliver_to e u =
      if not (u.session_id == e.session_id)
      then (u, false)
      else if u.replay_in_flight
      then (record u { pending = shifted u.pending ++ (e ∷ []) }, false)
      else if leb e.sequence u.last_applied_sequence
      then (u, false)
      else if not (e.sequence == u.last_applied_sequence + 1)
      then (record u { last_applied_sequence = e.sequence - 1 }, false)
      else (record u { last_applied_sequence = e.sequence }, true)

  abbrev sent_to : CanonicalRecord → Subscription × Bool → List (ℕ × CanonicalRecord)
  sent_to e (u, false) = []
  sent_to e (u, true) = (u.connection_id, e) ∷ []

  -- The loop, for listeners that do not throw.
  deliver_all : CanonicalRecord → List Subscription → List Subscription × List (ℕ × CanonicalRecord)
  deliver_all e [] = ([], [])
  deliver_all e (u ∷ us) =
      let (vs, out) = deliver_all e us in
      ((deliver_to e u).0 ∷ vs, sent_to e (deliver_to e u) ++ out)

  -- `deliverLive`.
  pub deliver_live : Transport → CanonicalRecord → Transport
  deliver_live t e =
      let (us, out) = deliver_all e t.subscriptions in
      record { subscriptions = us; sent = t.sent ++ out }
