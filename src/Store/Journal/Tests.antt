-- ===== src/Store/Journal/Tests.antt =====
-- packages/bridge/src/core/store.ts: the theorems on the journal, on a stream at cursor 2.
use pi_mob.Prelude.{◌+◌, ◌≡◌, refl, none, some, [], ◌∷◌, arith, Run, length, subst, some_inj}
use pi_mob.Tables.{StreamId, host, session, other, Stream}
use pi_mob.Store.Samples.{host_store, host_stream, host_event}
use pi_mob.Store.{Store, transaction}
use pi_mob.Store.Journal.{
  append_event, append_event_tx, append_found, insert_event, find_stream, events_on, list_events,
}
use pi_mob.Store.Journal.Invariant.{IsConsistent}
use pi_mob.Store.Journal.Append.{Published, append_event-IsConsistent, append_event-Published}
use pi_mob.Store.Journal.Prefix.{at_once, behind}
use pi_mob.Store.Journal.Traversal.{IsLater, read_pages, read_pages_complete}
use pi_mob.Store.Journal.Reads.{list_events-Run}

host_ordered :
    (id : StreamId) (r : Stream)
    → find_stream id host_store.streams ≡ some r
    → Run (λ e. e.cursor) r.floor (events_on id host_store.events)
      × (r.floor + length (events_on id host_store.events) ≡ r.current)
host_ordered host r h =
    subst
      (λ (q : Stream). Run (λ e. e.cursor) q.floor (host_event ∷ []) × (q.floor + 1 ≡ q.current))
      (some_inj h) ((refl, tt), refl)
host_ordered (session n) r h = cc

host_orphaned :
    (id : StreamId) → find_stream id host_store.streams ≡ none → events_on id host_store.events ≡ []
host_orphaned host h = cc
host_orphaned (session n) h = refl

pub host_store-IsConsistent : IsConsistent host_store
host_store-IsConsistent = record { ordered = host_ordered; orphaned = host_orphaned }

append_event-IsConsistent_example : IsConsistent (append_event host_store host (other 2 2) 8).0
append_event-IsConsistent_example =
    append_event-IsConsistent host_store host (other 2 2) 8 host_store-IsConsistent

append_event-Published_example :
    Published host_store host (append_event host_store host (other 2 2) 8)
append_event-Published_example =
    append_event-Published host_store host (other 2 2) 8 host_store-IsConsistent

list_events-Run_example :
    Run (λ e. e.cursor) 1 (list_events host_store host 1 (some 2))
    × (1 + length (list_events host_store host 1 (some 2)) ≡ 2)
list_events-Run_example =
    list_events-Run host_store host host_stream 1 host_store-IsConsistent refl (omega arith)
      (omega arith)

-- The host's store once another event has been appended, and once more.
abbrev grown_store : Store
grown_store = (append_event host_store host (other 2 2) 8).0

abbrev third_store : Store
third_store = (append_event grown_store host (other 3 3) 9).0

third_IsLater : IsLater grown_store (third_store ∷ third_store ∷ [])
unfolding append_event append_event_tx append_found insert_event transaction
third_IsLater = (
  behind grown_store third_store host (other 3 3) 9 _ refl (at_once third_store),
  (at_once third_store, tt),
)

grown_store-IsConsistent : IsConsistent grown_store
grown_store-IsConsistent =
    append_event-IsConsistent host_store host (other 2 2) 8 host_store-IsConsistent

-- Two pages of one event each are read, and not the event behind.
read_pages_complete_example :
    read_pages host 1 1 none (grown_store ∷ third_store ∷ third_store ∷ [])
    ≡ some (list_events grown_store host 1 (some 3))
unfolding append_event append_event_tx append_found insert_event transaction list_events
read_pages_complete_example =
    read_pages_complete host 1 1 grown_store (record host_stream { current = 3 })
      (third_store ∷ third_store ∷ []) (omega arith) (omega arith) grown_store-IsConsistent refl
      refl refl third_IsLater (omega arith)
