-- ===== src/Store/Journal/Pages.antt =====
-- packages/bridge/src/core/store.ts: pages of the journal, one after the other.
use pi_mob.Prelude.{
  ℕ, zero, suc, ◌+◌, ◌≤◌, ◌<◌, ◌≡◌, refl, sym, ap, ◌∙◌, subst, Bool, true, false, ◌&&◌, some, List,
  [], ◌∷◌, ◌++◌, arith, ltb, leb, keep, sort_by, take, drop, Run, All, All-map, All-keep, IsSorted,
  sort_by-sorted, keep-sort_by, keep-keep, keep_cong, Bool-cases, inl, inr, some_inj, lt→ltb,
  le→ltb_false, keep-All, Result, ok, err, Run-above, Option-cases, has, update, ◌==◌,
}
use pi_mob.Tables.{StreamId, stream_eq, Content, StoredEvent, Stream}
use pi_mob.Store.{Store, StoreErrorCode}
use pi_mob.Store.Transactions.{transaction-open}
use pi_mob.Store.Journal.{
  list_events, last_cursor, events_on, append_event, append_event_tx, find_stream,
}
use pi_mob.Store.Journal.Invariant.{IsConsistent, moved}
use pi_mob.Store.Journal.Append.{
  new_event, append_missing, append_event_tx-found, IsConsistent-IsDurable,
}

-- Events of ever later cursors.
abbrev pub IsAscending : List StoredEvent → Type 0
IsAscending [] = Unit
IsAscending (e ∷ es) = All (λ f. e.cursor < f.cursor) es × IsAscending es

Run-IsAscending : (n : ℕ) (es : List StoredEvent) → Run (λ e. e.cursor) n es → IsAscending es
Run-IsAscending n [] r = tt
Run-IsAscending n (e ∷ es) r = (
  All-map {Q = λ f. e.cursor < f.cursor} (λ f h. omega (arith, h)) es
      (Run-above (λ f. f.cursor) (e.cursor + 1) (n + 1) es (omega arith) r.1),
  Run-IsAscending (n + 1) es r.1,
)

keep-IsAscending :
    (p : StoredEvent → Bool) (es : List StoredEvent) → IsAscending es → IsAscending (keep p es)
keep-IsAscending p [] h = tt
keep-IsAscending p (e ∷ es) h =
    let ih = keep-IsAscending p es h.1 in
    elim (Bool-cases (p e)) [
      | inl k ↦ rw k (All-keep (λ f. e.cursor < f.cursor) p es h.0, ih)
      | inr k ↦ rw k ih
    ]

IsAscending-IsSorted : (es : List StoredEvent) → IsAscending es → IsSorted (λ e. e.cursor) es
IsAscending-IsSorted [] h = tt
IsAscending-IsSorted (e ∷ es) h =
    (All-map (λ f k. omega (arith, k)) es h.0, IsAscending-IsSorted es h.1)

pub last_cursor-All :
    (P : ℕ → Type 0) (es : List StoredEvent) (c : ℕ)
    → All (λ e. P e.cursor) es
    → last_cursor es ≡ some c
    → P c
last_cursor-All P [] c h e = cc
last_cursor-All P (x ∷ []) c h e = subst P (some_inj e) h.0
last_cursor-All P (x ∷ y ∷ es) c h e = last_cursor-All P (y ∷ es) c h.1 e

pub All-take :
    (P : StoredEvent → Type 0) (n : ℕ) (es : List StoredEvent) → All P es → All P (take n es)
All-take P zero es h = tt
All-take P (suc n) [] h = tt
All-take P (suc n) (e ∷ es) h = (h.0, All-take P n es h.1)

-- What lies behind the last event of a page is what the page leaves out.
pub keep-drop :
    (n : ℕ) (es : List StoredEvent) (c : ℕ)
    → IsAscending es
    → last_cursor (take (suc n) es) ≡ some c
    → keep (λ e. ltb c e.cursor) es ≡ drop (suc n) es
keep-drop n [] c h e = cc
keep-drop zero (x ∷ es) c h e =
    let same : x.cursor ≡ c = some_inj e in
    let here : ltb c x.cursor ≡ false = le→ltb_false c x.cursor (omega arith) in
    rw here (
      keep-All (λ f. ltb c f.cursor) es
        (All-map (λ f k. lt→ltb c f.cursor (omega (arith, k))) es h.0))
keep-drop (suc n) (x ∷ []) c h e =
    let same : x.cursor ≡ c = some_inj e in
    let here : ltb c x.cursor ≡ false = le→ltb_false c x.cursor (omega arith) in rw here
keep-drop (suc n) (x ∷ y ∷ es) c h e =
    let before : x.cursor < c =
      last_cursor-All (λ m. x.cursor < m) (take (suc n) (y ∷ es)) c
        (All-take (λ f. x.cursor < f.cursor) (suc n) (y ∷ es) h.0) e in
    let here : ltb c x.cursor ≡ false = le→ltb_false c x.cursor (omega arith) in
    rw here (keep-drop n (y ∷ es) c h.1 e)

-- A read from a later cursor is the rest of the read.
pub list_events-later :
    (s : Store) (id : StreamId) (a b m : ℕ)
    → a ≤ b
    → list_events s id b (some m) ≡ keep (λ e. ltb b e.cursor) (list_events s id a (some m))
unfolding list_events
list_events-later s id a b m le =
    ap (sort_by (λ e. e.cursor)) (
      keep_cong (λ e. stream_eq e.stream_id id && (ltb b e.cursor && leb e.cursor m))
        (λ e. (stream_eq e.stream_id id && (ltb a e.cursor && leb e.cursor m)) && ltb b e.cursor)
        s.events (each s.events)
      ∙ keep-keep (λ e. stream_eq e.stream_id id && (ltb a e.cursor && leb e.cursor m))
          (λ e. ltb b e.cursor) s.events)
    ∙ sym (
        keep-sort_by (λ e. e.cursor) (λ e. ltb b e.cursor)
          (keep (λ e. stream_eq e.stream_id id && (ltb a e.cursor && leb e.cursor m)) s.events))
  where
    each :
        (es : List StoredEvent)
        → All
            (λ e. (stream_eq e.stream_id id && (ltb b e.cursor && leb e.cursor m)) ≡ (
              (stream_eq e.stream_id id && (ltb a e.cursor && leb e.cursor m)) && ltb b e.cursor))
            es
    each [] = tt
    each (x ∷ xs) = (ground (arith, le), each xs)

-- A read of a stream on a consistent journal is in the order of the cursors.
pub list_events-IsAscending :
    (s : Store) (id : StreamId) (r : Stream) (a m : ℕ)
    → IsConsistent s
    → find_stream id s.streams ≡ some r
    → IsAscending (list_events s id a (some m))
unfolding list_events
list_events-IsAscending s id r a m c found =
    let rows = keep (λ e. ltb a e.cursor && leb e.cursor m) (events_on id s.events) in
    let ascending : IsAscending rows =
      keep-IsAscending (λ e. ltb a e.cursor && leb e.cursor m) (events_on id s.events)
        (Run-IsAscending r.floor (events_on id s.events) (c.ordered id r found).0) in
    subst IsAscending
      (sym (
        ap (sort_by (λ e. e.cursor)) (
          keep-keep (λ e. stream_eq e.stream_id id) (λ e. ltb a e.cursor && leb e.cursor m)
            s.events)
        ∙ sort_by-sorted (λ e. e.cursor) rows (IsAscending-IsSorted rows ascending)))
      ascending

-- A stream of an open store that has reached a cursor.
pub record Reaches (id : StreamId) (m : ℕ) (s : Store) : Type 0 where
  pub consistent : IsConsistent s
  pub writable : s.writable ≡ true
  pub maintenance : s.maintenance ≡ false
  pub stream : Stream
  pub found : find_stream id s.streams ≡ some stream
  pub high : m ≤ stream.current

-- What a successful append leaves.
abbrev pub Appends :
    Store → StreamId → Content → ℕ → Store × Result StoreErrorCode StoredEvent → Type 0
Appends s target content n (t, ok e) =
    (q : Stream) × (find_stream target s.streams ≡ some q)
    × (t.events ≡ s.events ++ (new_event s target content n q ∷ []))
    × (t.streams
        ≡ update (λ o. stream_eq o.stream_id target) (λ o. moved (q.current + 1) o) s.streams)
    × (t.writable ≡ s.writable)
    × (t.maintenance ≡ s.maintenance)
Appends s target content n (t, err code) = Unit

pub append_event-Appends :
    (s : Store) (target : StreamId) (content : Content) (n : ℕ)
    → IsConsistent s
    → s.writable ≡ true
    → s.maintenance ≡ false
    → Appends s target content n (append_event s target content n)
unfolding append_event new_event
append_event-Appends s target content n c w m =
    let s' = record s { collecting = [] } in
    let c' : IsConsistent s' = IsConsistent-IsDurable s s.published [] s.writable c in
    subst (Appends s target content n)
      (sym (transaction-open (append_event_tx target content n) s w m))
      (elim (Option-cases (find_stream target s.streams)) [
        | inl e ↦ simp (append_missing s' target content n e) tt
        | inr (q, e) ↦ elim (Bool-cases (has (λ o. o.event_id == n) s.events)) [
          | inl k ↦ simp (append_event_tx-found s' target content n q c' e, k) tt
          | inr k ↦
              simp (append_event_tx-found s' target content n q c' e, k)
                (q, e, refl, refl, refl, refl)
        ]
      ])
