-- ===== src/Store/Journal/Invariant.antt =====
-- packages/bridge/src/core/store.ts: what every operation keeps of the event journal.
use pi_mob.Prelude.{
  ℕ, ◌+◌, ◌≡◌, refl, Bool, true, false, Option, none, some, List, [], ◌∷◌, ◌++◌, arith, update,
  length, length-append, Run, Run-append, Bool-cases, inl, inr, subst, sym, ap, ◌∙◌, append-nil,
  some_inj,
}
use pi_mob.Tables.{StreamId, stream_eq, stream_eq_iff, StoredEvent, Stream}
use pi_mob.Store.{Store}
use pi_mob.Store.Journal.{find_stream, events_on}

-- The events of each stream carry the cursors from its retention floor to its current cursor, each
-- once and in order; no event is on a stream that is not there.
pub record IsConsistent (s : Store) : Type 0 where
  pub ordered :
      (id : StreamId) (r : Stream)
      → find_stream id s.streams ≡ some r
      → Run (λ e. e.cursor) r.floor (events_on id s.events)
        × (r.floor + length (events_on id s.events) ≡ r.current)
  pub orphaned : (id : StreamId) → find_stream id s.streams ≡ none → events_on id s.events ≡ []

events_on-append :
    (id : StreamId) (es fs : List StoredEvent)
    → events_on id (es ++ fs) ≡ events_on id es ++ events_on id fs
events_on-append id [] fs = refl
events_on-append id (e ∷ es) fs = elim (Bool-cases (stream_eq e.stream_id id)) [
  | inl p ↦ rw p (ap (◌∷◌ e) (events_on-append id es fs))
  | inr p ↦ rw p (events_on-append id es fs)
]

abbrev pub moved : ℕ → Stream → Stream
moved n r = record r { current = n }

abbrev pub moved? : Bool → ℕ → Option Stream → Option Stream
moved? true n (some r) = some (moved n r)
moved? _ n o = o

pub find_stream-update :
    (id target : StreamId) (n : ℕ) (rs : List Stream)
    → find_stream id (update (λ o. stream_eq o.stream_id target) (moved n) rs)
      ≡ moved? (stream_eq target id) n (find_stream id rs)
find_stream-update id target n [] = ground arith
find_stream-update id target n (r ∷ rs) = ground (
  arith,
  stream_eq_iff r.stream_id target,
  stream_eq_iff r.stream_id id,
  stream_eq_iff target id,
  find_stream-update id target n rs,
)

-- The stream that is found is the one that is asked for.
pub find_stream_id :
    (id : StreamId) (rs : List Stream) (r : Stream) → find_stream id rs ≡ some r → r.stream_id ≡ id
find_stream_id id [] r h = cc
find_stream_id id (o ∷ rs) r h =
    ground (arith, stream_eq_iff o.stream_id id, find_stream_id id rs r)

events_on-snoc_same :
    (id : StreamId) (es : List StoredEvent) (e : StoredEvent)
    → e.stream_id ≡ id
    → events_on id (es ++ (e ∷ [])) ≡ events_on id es ++ (e ∷ [])
events_on-snoc_same id es e h =
    events_on-append id es (e ∷ []) ∙ rw ((stream_eq_iff e.stream_id id).1 h)

events_on-snoc_other :
    (id : StreamId) (es : List StoredEvent) (e : StoredEvent)
    → stream_eq e.stream_id id ≡ false
    → events_on id (es ++ (e ∷ [])) ≡ events_on id es
events_on-snoc_other id es e h = events_on-append id es (e ∷ []) ∙ rw (h, append-nil)

abbrev IsOrdered : StreamId → Stream → List StoredEvent → Type 0
IsOrdered id r es =
    Run (λ e. e.cursor) r.floor (events_on id es) × (r.floor + length (events_on id es) ≡ r.current)

-- One event behind an ordered stream.
IsOrdered-snoc :
    (id : StreamId) (r : Stream) (es : List StoredEvent) (e : StoredEvent)
    → IsOrdered id r es
    → e.stream_id ≡ id
    → e.cursor ≡ r.current + 1
    → IsOrdered id (moved (r.current + 1) r) (es ++ (e ∷ []))
IsOrdered-snoc id r es e (run, len) on at = rw (events_on-snoc_same id es e on) (
  Run-append (λ e. e.cursor) r.floor (events_on id es) (e ∷ []) run (rw (len, at) (refl, tt)),
  omega (arith, length-append (events_on id es) (e ∷ [])),
)

abbrev pub extended : Store → StreamId → Stream → StoredEvent → Store
extended s id r e = record s {
  streams = update (λ o. stream_eq o.stream_id id) (moved (r.current + 1)) s.streams;
  events = s.events ++ (e ∷ []);
}

module _ (s : Store) (id : StreamId) (r : Stream) (e : StoredEvent)
    (found : find_stream id s.streams ≡ some r) where
  found_extended : find_stream id (extended s id r e).streams ≡ some (moved (r.current + 1) r)
  found_extended =
      find_stream-update id id (r.current + 1) s.streams ∙ rw (found, (stream_eq_iff id id).1 refl)

  module _ (c : IsConsistent s) (on : e.stream_id ≡ id) (at : e.cursor ≡ r.current + 1) where
    IsOrdered-same :
        (j : StreamId) (o : Stream)
        → id ≡ j
        → find_stream j (extended s id r e).streams ≡ some o
        → IsOrdered j o (extended s id r e).events
    IsOrdered-same j o p =
        subst
          (λ k.
            find_stream k (extended s id r e).streams ≡ some o
            → IsOrdered k o (extended s id r e).events)
          p
          (λ h.
            subst (λ q. IsOrdered id q (extended s id r e).events)
              (some_inj (sym found_extended ∙ h))
              (IsOrdered-snoc id r s.events e (c.ordered id r found) on at))

    orphaned_same : (j : StreamId) → id ≡ j → find_stream j (extended s id r e).streams ≡ none → ⊥
    orphaned_same j p =
        subst (λ k. find_stream k (extended s id r e).streams ≡ none → ⊥) p
          (λ h. let q : some (moved (r.current + 1) r) ≡ none = sym found_extended ∙ h in cc)

    -- An event behind a stream of a consistent journal.
    pub extended-IsConsistent : IsConsistent (extended s id r e)
    extended-IsConsistent = record {
      ordered = λ j o h. elim (Bool-cases (stream_eq id j)) [
        | inl p ↦ IsOrdered-same j o ((stream_eq_iff id j).0 p) h
        | inr p ↦
            let q : stream_eq e.stream_id j ≡ false = rw on p in
            rw (events_on-snoc_other j s.events e q)
              (c.ordered j o (rw (find_stream-update j id (r.current + 1) s.streams, p) at h))
      ];
      orphaned = λ j h. elim (Bool-cases (stream_eq id j)) [
        | inl p ↦ absurd (orphaned_same j ((stream_eq_iff id j).0 p) h)
        | inr p ↦
            let q : stream_eq e.stream_id j ≡ false = rw on p in
            events_on-snoc_other j s.events e q
            ∙ c.orphaned j (rw (find_stream-update j id (r.current + 1) s.streams, p) at h)
      ];
    }
