-- ===== src/Store/Journal/Traversal.antt =====
-- packages/bridge/src/core/store.ts: pageEvents, called again and again while events arrive.
use pi_mob.Prelude.{
  ℕ, zero, suc, ◌+◌, ◌≤◌, ◌<◌, ◌≡◌, refl, ap, ◌∙◌, Bool, true, false, ◌&&◌, Option, none, some,
  List, [], ◌∷◌, ◌++◌, arith, ltb, leb, keep, take, drop, length, All, Bool-cases, inl, inr,
  if◌then◌else◌, Result, ok, err, Option-cases, length-drop, length-take, sort_by-All, keep-each,
  All-map, ◌≢◌,
}
use pi_mob.Tables.{StreamId, stream_eq, StoredEvent, Stream}
use pi_mob.Store.{Store, StoreErrorCode, transaction}
use pi_mob.Store.Journal.{list_events, last_cursor, find_stream, page_events, page_found, Page}
use pi_mob.Store.Journal.Invariant.{IsConsistent, find_stream_id}
use pi_mob.Store.Journal.Prefix.{Later, at_once, Later-prefix}
use pi_mob.Store.Journal.Pages.{
  keep-drop, last_cursor-All, All-take, list_events-later, list_events-IsAscending, Reaches,
}

-- The page at a cursor, of a stream that has reached the boundary.
abbrev page_at : ℕ → List StoredEvent → ℕ → Page
page_at size rows m = record {
  items = take size (take (size + 1) rows);
  snapshot_revision = m;
  next_cursor =
      if ltb size (length (take (size + 1) rows))
      then last_cursor (take size (take (size + 1) rows))
      else none;
}

page_events-ok :
    (s : Store) (id : StreamId) (size a m : ℕ)
    → leb 1 size && leb size 100 ≡ true
    → Reaches id m s
    → (page_events s id size a (some m)).1 ≡ ok (page_at size (list_events s id a (some m)) m)
unfolding page_events page_found transaction list_events
page_events-ok s id size a m fits h =
    simp (fits, h.writable, h.maintenance, h.found, find_stream_id id s.streams h.stream h.found)

take-take : (n m : ℕ) (es : List StoredEvent) → n ≤ m → take n (take m es) ≡ take n es
take-take zero m es h = refl
take-take (suc n) zero es h = let bad : true ≡ false = ground (arith, h) in cc
take-take (suc n) (suc m) [] h = refl
take-take (suc n) (suc m) (e ∷ es) h = ap (◌∷◌ e) (take-take n m es (omega arith))

take-all : (n : ℕ) (es : List StoredEvent) → length es ≤ n → take n es ≡ es
take-all zero [] h = refl
take-all zero (e ∷ es) h = let bad : true ≡ false = ground (arith, h) in cc
take-all (suc n) [] h = refl
take-all (suc n) (e ∷ es) h = ap (◌∷◌ e) (take-all n es (omega arith))

take-drop : (n : ℕ) (es : List StoredEvent) → take n es ++ drop n es ≡ es
take-drop zero es = refl
take-drop (suc n) [] = refl
take-drop (suc n) (e ∷ es) = ap (◌∷◌ e) (take-drop n es)

last_cursor-some : (es : List StoredEvent) → 1 ≤ length es → last_cursor es ≢ none
last_cursor-some [] h e = ground (arith, h)
last_cursor-some (x ∷ []) h e = let bad : some x.cursor ≡ none = e in cc
last_cursor-some (x ∷ y ∷ es) h e = last_cursor-some (y ∷ es) (omega arith) e

list_events-above :
    (s : Store) (id : StreamId) (a m : ℕ) → All (λ e. a < e.cursor) (list_events s id a (some m))
unfolding list_events
list_events-above s id a m =
    let test : StoredEvent → Bool =
      λ e. stream_eq e.stream_id id && (ltb a e.cursor && leb e.cursor m) in
    sort_by-All (λ e. e.cursor) (λ e. a < e.cursor) (keep test s.events)
      (All-map {Q = λ e. a < e.cursor} (λ e h. ground (arith, h)) (keep test s.events)
        (keep-each test s.events))

abbrev prepend : List StoredEvent → Option (List StoredEvent) → Option (List StoredEvent)
prepend items none = none
prepend items (some es) = some (items ++ es)

abbrev follow :
    List StoredEvent → Option ℕ → (ℕ → Option (List StoredEvent)) → Option (List StoredEvent)
follow items none f = some items
follow items (some c) f = prepend items (f c)

abbrev read_next :
    Result StoreErrorCode Page → (ℕ → ℕ → Option (List StoredEvent)) → Option (List StoredEvent)
read_next (err code) f = none
read_next (ok p) f = follow p.items p.next_cursor (λ c. f c p.snapshot_revision)

-- The client's traversal: a page of each store, from where the page before ends, up to the boundary
-- of the first page. None if a page throws, or if another page is to come when the stores are used up.
abbrev pub read_pages : StreamId → ℕ → ℕ → Option ℕ → List Store → Option (List StoredEvent)
read_pages id size a through [] = none
read_pages id size a through (t ∷ ts) =
    read_next (page_events t id size a through).1 (λ c m. read_pages id size c (some m) ts)

-- Each store is behind the one before.
abbrev pub IsLater : Store → List Store → Type 0
IsLater s [] = Unit
IsLater s (t ∷ ts) = Later s t × IsLater t ts

module _ (id : StreamId) (k m : ℕ) (fits : (leb 1 (suc k) && leb (suc k) 100) ≡ true) where
  read_prefix :
      (s : Store) (a : ℕ) (ts : List Store)
      → Reaches id m s
      → IsLater s ts
      → length (list_events s id a (some m)) < length ts
      → read_pages id (suc k) a (some m) ts ≡ some (list_events s id a (some m))
  read_prefix s a [] h later lt = let bad : true ≡ false = ground (arith, lt) in cc
  read_prefix s a (t ∷ ts) h (first, rest) lt =
      let (h', same) = Later-prefix id m s t first h in
      let rows = list_events t id a (some m) in
      let page = page_events-ok t id (suc k) a m fits h' in
      let cut = length-take (suc k + 1) rows in
      let whole = take-take (suc k) (suc k + 1) rows (omega arith) in
      let f : ℕ → Option (List StoredEvent) = λ c. read_pages id (suc k) c (some m) ts in
      let more = ltb (suc k) (length (take (suc k + 1) rows)) in
      let step : read_pages id (suc k) a (some m) (t ∷ ts)
          ≡ follow (take (suc k) rows) (if more then last_cursor (take (suc k) rows) else none) f =
        ap (λ o. read_next o (λ c n. read_pages id (suc k) c (some n) ts)) page
        ∙ ap (λ es. follow es (if more then last_cursor es else none) f) whole in
      step ∙ elim (Bool-cases more) [
        | inr e ↦
            let few : length rows ≤ suc k = ground (arith, e, cut) in
            ap
              (λ b.
                follow (take (suc k) rows) (if b then last_cursor (take (suc k) rows) else none) f)
              e
            ∙ ap some (take-all (suc k) rows few ∙ same a)
        | inl e ↦
            let many : suc k + 1 ≤ length rows = ground (arith, e, cut) in
            elim (Option-cases (last_cursor (take (suc k) rows))) [
              | inl empty ↦ absurd (
                  last_cursor-some (take (suc k) rows)
                    (omega (arith, many, length-take (suc k) rows)) empty)
              | inr (c, last) ↦
                  let above : a < c =
                    last_cursor-All (λ x. a < x) (take (suc k) rows) c
                      (All-take (λ x. a < x.cursor) (suc k) rows (list_events-above t id a m))
                      last in
                  let left : list_events t id c (some m) ≡ drop (suc k) rows =
                    list_events-later t id a c m (omega (arith, above))
                    ∙ keep-drop k rows c
                        (list_events-IsAscending t id h'.stream a m h'.consistent h'.found) last in
                  let fewer : length (list_events t id c (some m)) < length ts = omega (
                    arith,
                    ap length left,
                    length-drop (suc k) rows,
                    ap length (same a),
                    many,
                    lt,
                  ) in
                  let ih = read_prefix t c ts h' rest fewer in
                  ap
                    (λ b.
                      follow (take (suc k) rows)
                        (if b then last_cursor (take (suc k) rows) else none) f)
                    e
                  ∙ ap (λ o. follow (take (suc k) rows) o f) last
                  ∙ ap (prepend (take (suc k) rows)) ih
                  ∙ ap (λ es. some (take (suc k) rows ++ es)) left
                  ∙ ap some (take-drop (suc k) rows ∙ same a)
            ]
      ]

page_events-boundary :
    (s : Store) (id : StreamId) (size a : ℕ) (r : Stream)
    → find_stream id s.streams ≡ some r
    → (page_events s id size a none).1 ≡ (page_events s id size a (some r.current)).1
unfolding page_events page_found transaction
page_events-boundary s id size a r found = simp found

-- A client that asks for pages of 1 to 100 events, each from where the page before ends and up to the
-- boundary that the first page names, reads the events of the stream that were there behind its cursor
-- at the first page, each once and in order, whatever events are appended between the pages. The
-- journal is consistent, the store takes writes, the appends succeed, and the client asks for more
-- pages, if need be, than it reads events.
pub read_pages_complete :
    (id : StreamId) (size a : ℕ) (s : Store) (r : Stream) (later : List Store)
    → 1 ≤ size
    → size ≤ 100
    → IsConsistent s
    → s.writable ≡ true
    → s.maintenance ≡ false
    → find_stream id s.streams ≡ some r
    → IsLater s later
    → length (list_events s id a (some r.current)) ≤ length later
    → read_pages id size a none (s ∷ later) ≡ some (list_events s id a (some r.current))
read_pages_complete id zero a s r later low high c w md found chain enough =
    let bad : true ≡ false = ground (arith, low) in cc
read_pages_complete id (suc k) a s r later low high c w md found chain enough =
    ap (λ o. read_next o (λ b m. read_pages id (suc k) b (some m) later))
      (page_events-boundary s id (suc k) a r found)
    ∙ read_prefix id k r.current (ground (arith, high)) s a (s ∷ later)
        (record {
          consistent = c;
          writable = w;
          maintenance = md;
          stream = r;
          found = found;
          high = omega arith;
        })
        (at_once s, chain) (omega (arith, enough))
