-- ===== src/Store/Journal/Reads.antt =====
-- packages/bridge/src/core/store.ts: what reading a consistent journal gives.
use pi_mob.Prelude.{
  ℕ, ◌+◌, ◌≤◌, ◌≡◌, true, false, ◌&&◌, some, arith, ltb, leb, keep, sort_by, ok, length, Run,
  Run-below, Run-IsSorted, sort_by-sorted, keep-keep, keep_cong, keep-Run, All, All-map, ap, ◌∙◌,
}
use pi_mob.Tables.{StreamId, stream_eq, Stream}
use pi_mob.Store.{Store, transaction}
use pi_mob.Store.Journal.{find_stream, events_on, list_events, up_to, read_replay, read_found}
use pi_mob.Store.Journal.Invariant.{IsConsistent, find_stream_id}

within : (after n m : ℕ) → n ≤ m → (ltb after n && leb n m) ≡ ltb after n
within after n m h = ground arith

module _ (s : Store) (id : StreamId) (r : Stream) (after : ℕ) (c : IsConsistent s)
    (found : find_stream id s.streams ≡ some r) (low : r.floor ≤ after)
    (high : after ≤ r.current) where
  list_events-keep :
      list_events s id after (some r.current)
      ≡ sort_by (λ e. e.cursor) (keep (λ e. ltb after e.cursor) (events_on id s.events))
  unfolding list_events
  list_events-keep = ap (sort_by (λ e. e.cursor)) (
      keep-keep (λ e. stream_eq e.stream_id id)
        (λ e. ltb after e.cursor && up_to (some r.current) e.cursor) s.events
      ∙ keep_cong (λ e. ltb after e.cursor && up_to (some r.current) e.cursor)
          (λ e. ltb after e.cursor) (events_on id s.events) below)
    where
      below :
          All
            (λ e. (ltb after e.cursor && up_to (some r.current) e.cursor) ≡ ltb after e.cursor)
            (events_on id s.events)
      below =
          All-map (λ e h. within after e.cursor r.current (omega (arith, (c.ordered id r found).1)))
            (events_on id s.events)
            (Run-below (λ e. e.cursor) r.floor (events_on id s.events) (c.ordered id r found).0)

  -- On a consistent journal, from a cursor of a stream that is there, between its floor and its
  -- current one: a read gives the events of each later cursor, each
  -- once and in order, up to the current one.
  pub list_events-Run :
      Run (λ e. e.cursor) after (list_events s id after (some r.current))
      × (after + length (list_events s id after (some r.current)) ≡ r.current)
  list_events-Run =
      let (run, len) = c.ordered id r found in
      let k =
        keep-Run (λ e. e.cursor) r.floor after (events_on id s.events) low (omega arith) run in
      rw (list_events-keep, sort_by-sorted (λ e. e.cursor) _ (Run-IsSorted (λ e. e.cursor) _ _ k.0))
        (k.0, k.1 ∙ len)

-- A read of a stream that is there, on a store that takes writes.
pub read_replay-ok :
    (s : Store) (id : StreamId) (r : Stream) (after : ℕ)
    → s.writable ≡ true
    → s.maintenance ≡ false
    → find_stream id s.streams ≡ some r
    → (read_replay s id after).1
      ≡ ok (record {
        current = r.current;
        floor = r.floor;
        events = list_events s id after (some r.current);
      })
unfolding read_replay read_found transaction list_events
read_replay-ok s id r after w m found = simp (w, m, found, find_stream_id id s.streams r found)
