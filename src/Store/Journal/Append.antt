-- ===== src/Store/Journal/Append.antt =====
-- packages/bridge/src/core/store.ts: what appending to a consistent journal does.
use pi_mob.Prelude.{
  ℕ, ◌+◌, ◌≤◌, ◌<◌, ◌≡◌, refl, ◌&&◌, ◌||◌, Option, none, some, List, [], ◌∷◌, ◌++◌, arith, ◌==◌,
  if◌then◌else◌, has, Result, ok, err, length, Run-below, Bool-cases, inl, inr, All, Option-cases,
}
use pi_mob.Tables.{StreamId, stream_eq, Content, StoredEvent, Stream}
use pi_mob.Store.{Store, conclude, broken_constraint, store_error, StoreErrorCode, not_found}
use pi_mob.Store.Transactions.{IsDurable, Keeps, transaction-keeps, transaction-cases}
use pi_mob.Store.Journal.{
  find_stream, events_on, insert_event, append_found, append_event_tx, append_event,
}
use pi_mob.Store.Journal.Invariant.{IsConsistent, extended, extended-IsConsistent}

-- A statement of a stream's next cursor clashes with no row of a consistent journal but by its
-- identity.
no_clash :
    (id : StreamId) (n c : ℕ) (es : List StoredEvent)
    → All (λ o. o.cursor < c) (events_on id es)
    → has (λ o. (o.event_id == n) || (stream_eq o.stream_id id && o.cursor == c)) es
      ≡ has (λ o. o.event_id == n) es
no_clash id n c [] h = refl
no_clash id n c (o ∷ es) h = elim (Bool-cases (stream_eq o.stream_id id)) [
  | inl p ↦
      let k : All (λ o. o.cursor < c) (o ∷ events_on id es) = rw p at h in
      ground (arith, p, no_clash id n c es k.1)
  | inr p ↦
      let k : All (λ o. o.cursor < c) (events_on id es) = rw p at h in
      ground (arith, p, no_clash id n c es k)
]

unfoldable pub new_event : Store → StreamId → Content → ℕ → Stream → StoredEvent
new_event s id content n r = record {
  event_id = n;
  stream_id = id;
  cursor = r.current + 1;
  content = content;
  created_at = s.now;
}

-- The journal with the event behind its stream.
abbrev pub appended : Store → StreamId → Content → ℕ → Stream → Store
appended s id content n r =
    let e = new_event s id content n r in
    record (extended s id r e) { collecting = s.collecting ++ (e ∷ []) }

next_free :
    (s : Store) (id : StreamId) (r : Stream) (n : ℕ)
    → IsConsistent s
    → find_stream id s.streams ≡ some r
    → has
        (λ o. (o.event_id == n) || (stream_eq o.stream_id id && o.cursor == r.current + 1))
        s.events
      ≡ has (λ o. o.event_id == n) s.events
next_free s id r n c found =
    let (run, len) = c.ordered id r found in
    no_clash id n (r.current + 1) s.events (
      All-below (events_on id s.events) (omega arith)
        (Run-below (λ e. e.cursor) r.floor (events_on id s.events) run))
  where
    All-below :
        (es : List StoredEvent)
        → r.floor + length (events_on id s.events) ≤ r.current
        → All (λ o. o.cursor ≤ r.floor + length (events_on id s.events)) es
        → All (λ o. o.cursor < r.current + 1) es
    All-below [] h k = tt
    All-below (o ∷ es) h k = (omega arith, All-below es h k.1)

pub append_missing :
    (s : Store) (id : StreamId) (content : Content) (n : ℕ)
    → find_stream id s.streams ≡ none
    → append_event_tx id content n s ≡ err (store_error not_found)
unfolding append_event_tx append_found
append_missing s id content n e = rw (e, append_found)

-- On a consistent journal an append to a stream fails only on an identity that is taken; else the
-- event carries the stream's next cursor, and the stream moves on to it.
pub append_event_tx-found :
    (s : Store) (id : StreamId) (content : Content) (n : ℕ) (r : Stream)
    → IsConsistent s
    → find_stream id s.streams ≡ some r
    → append_event_tx id content n s ≡ (
        if has (λ o. o.event_id == n) s.events
        then err broken_constraint
        else ok (appended s id content n r, new_event s id content n r))
unfolding append_event_tx append_found insert_event new_event
append_event_tx-found s id content n r c found =
    rw (found, append_found)
      (elim (Bool-cases (has (λ o. o.event_id == n) s.events)) [
        | inl p ↦ rw (next_free s id r n c found, p)
        | inr p ↦ rw (next_free s id r n c found, p)
      ])

pub IsConsistent-IsDurable : IsDurable IsConsistent
IsConsistent-IsDurable s published collecting w c = record {
  ordered = c.ordered;
  orphaned = c.orphaned;
}

pub append_event_tx-Keeps :
    (id : StreamId) (content : Content) (n : ℕ) (s : Store)
    → IsConsistent s
    → Keeps IsConsistent (append_event_tx id content n s)
unfolding new_event
append_event_tx-Keeps id content n s c = elim (Option-cases (find_stream id s.streams)) [
  | inl e ↦ rw (append_missing s id content n e) tt
  | inr (r, e) ↦
      let extended : IsConsistent (appended s id content n r) =
        IsConsistent-IsDurable (extended s id r (new_event s id content n r)) s.published
          (s.collecting ++ (new_event s id content n r ∷ [])) s.writable
          (extended-IsConsistent s id r (new_event s id content n r) e c refl refl) in
      rw (append_event_tx-found s id content n r c e)
        (elim (Bool-cases (has (λ o. o.event_id == n) s.events)) [
          | inl p ↦ rw p tt
          | inr p ↦ rw p extended
        ])
]

-- An append changes streams, events and what is collected for the listeners, and nothing else.
abbrev pub IsFramed : Store → Store → Type 0
IsFramed s t = t ≡ record s { streams = t.streams; events = t.events; collecting = t.collecting }

framed :
    (s : Store) (id : StreamId) (content : Content) (n : ℕ) (o : Option Stream)
    → Keeps (IsFramed s) (append_found id content n o s)
unfolding append_found insert_event
framed s id content n none = tt
framed s id content n (some r) =
    elim (Bool-cases (
      has (λ o. (o.event_id == n) || (stream_eq o.stream_id id && o.cursor == r.current + 1))
        s.events)) [ inl e ↦ rw (e, Keeps) tt | inr e ↦ rw (e, Keeps) refl ]

pub append_event_tx-IsFramed :
    (id : StreamId) (content : Content) (n : ℕ) (s : Store)
    → Keeps (IsFramed s) (append_event_tx id content n s)
unfolding append_event_tx
append_event_tx-IsFramed id content n s = framed s id content n (find_stream id s.streams)

-- Every append, also one that throws or is refused, keeps the journal consistent.
pub append_event-IsConsistent :
    (s : Store) (id : StreamId) (content : Content) (n : ℕ)
    → IsConsistent s
    → IsConsistent (append_event s id content n).0
unfolding append_event
append_event-IsConsistent s id content n c =
    transaction-keeps IsConsistent IsConsistent-IsDurable (append_event_tx id content n) s
      (append_event_tx-Keeps id content n) c

-- The cursor behind a stream's current one.
abbrev pub next_cursor : Option Stream → Option ℕ
next_cursor none = none
next_cursor (some r) = some (r.current + 1)

-- What an append tells its caller and the listeners.
abbrev pub Published : Store → StreamId → Store × Result StoreErrorCode StoredEvent → Type 0
Published s id (s', ok e) =
    (s'.events ≡ s.events ++ (e ∷ []))
    × (s'.published ≡ s.published ++ (e ∷ []))
    × (some e.cursor ≡ next_cursor (find_stream id s.streams))
Published s id (s', err code) =
    (s'.events ≡ s.events) × (s'.streams ≡ s.streams) × (s'.published ≡ s.published)

append-Published :
    (s : Store) (id : StreamId) (content : Content) (n : ℕ)
    → IsConsistent s
    → Published s id (conclude s (append_event_tx id content n (record s { collecting = [] })))
unfolding new_event
append-Published s id content n c =
    let t = record s { collecting = [] } in
    let ct : IsConsistent t = IsConsistent-IsDurable s s.published [] s.writable c in
    elim (Option-cases (find_stream id s.streams)) [
      | inl e ↦ rw (append_missing t id content n e) (refl, refl, refl)
      | inr (r, e) ↦
          rw (append_event_tx-found t id content n r ct e)
            (elim (Bool-cases (has (λ o. o.event_id == n) s.events)) [
              | inl p ↦ rw p (refl, refl, refl)
              | inr p ↦ rw (p, e) (refl, refl, refl)
            ])
    ]

-- On a consistent journal, with listeners that do not throw: an append that returns has put one
-- event on the journal and published that event, which is the one returned, at the next cursor of
-- its stream. An append that throws or is refused changes no row and publishes nothing.
pub append_event-Published :
    (s : Store) (id : StreamId) (content : Content) (n : ℕ)
    → IsConsistent s
    → Published s id (append_event s id content n)
unfolding append_event
append_event-Published s id content n c =
    elim (transaction-cases (append_event_tx id content n) s) [
      | inl e ↦ rw e (refl, refl, refl)
      | inr e ↦ rw e (append-Published s id content n c)
    ]
