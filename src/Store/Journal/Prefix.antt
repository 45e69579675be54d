-- ===== src/Store/Journal/Prefix.antt =====
-- packages/bridge/src/core/store.ts: what a stream holds up to a cursor, while events arrive.
use pi_mob.Prelude.{
  ℕ, ◌+◌, ◌≤◌, ◌<◌, ◌≡◌, refl, sym, ap, ◌∙◌, subst, Bool, false, ◌&&◌, some, List, [], ◌∷◌, ◌++◌,
  arith, ltb, leb, keep, sort_by, Bool-cases, inl, inr, some_inj, Result, ok, err, update,
  lt→leb_false,
}
use pi_mob.Tables.{StreamId, stream_eq, stream_eq_iff, Content, StoredEvent, Stream}
use pi_mob.Store.{Store, StoreErrorCode}
use pi_mob.Store.Journal.{list_events, append_event, find_stream}
use pi_mob.Store.Journal.Invariant.{IsConsistent, moved, find_stream-update}
use pi_mob.Store.Journal.Append.{new_event, append_event-IsConsistent}
use pi_mob.Store.Journal.Pages.{Reaches, Appends, append_event-Appends}

-- A store behind another one, with events appended between.
pub data Later : Store → Store → Type 0 where
  at_once : (s : Store) → Later s s
  behind :
      (s t : Store) (target : StreamId) (content : Content) (n : ℕ) (e : StoredEvent)
      → (append_event s target content n).1 ≡ ok e
      → Later (append_event s target content n).0 t
      → Later s t

keep-snoc_beyond :
    (p : StoredEvent → Bool) (es : List StoredEvent) (e : StoredEvent)
    → p e ≡ false
    → keep p (es ++ (e ∷ [])) ≡ keep p es
keep-snoc_beyond p [] e h = rw h
keep-snoc_beyond p (x ∷ xs) e h = ground (arith, keep-snoc_beyond p xs e h)

module _ (id : StreamId) (m : ℕ) where
  -- An event that is appended stands behind the cursor that its stream has reached.
  is_beyond :
      (s : Store) (target : StreamId) (content : Content) (n a : ℕ) (q r : Stream)
      → find_stream target s.streams ≡ some q
      → find_stream id s.streams ≡ some r
      → m ≤ r.current
      → (stream_eq target id && (ltb a (q.current + 1) && leb (q.current + 1) m)) ≡ false
  is_beyond s target content n a q r there found high = elim (Bool-cases (stream_eq target id)) [
    | inr e ↦ rw e refl
    | inl e ↦
        let same : target ≡ id = (stream_eq_iff target id).0 e in
        let eq : q ≡ r = some_inj (sym there ∙ ap (λ i. find_stream i s.streams) same ∙ found) in
        let le : m < q.current + 1 = subst (λ o. m < o.current + 1) (sym eq) (omega arith) in
        ground (arith, lt→leb_false (q.current + 1) m le)
  ]

  moved_on :
      (target : StreamId) (q r : Stream) (rs : List Stream)
      → find_stream target rs ≡ some q
      → find_stream id rs ≡ some r
      → (o : Stream) × (find_stream id
            (update (λ x. stream_eq x.stream_id target) (moved (q.current + 1)) rs)
          ≡ some o)
        × (r.current ≤ o.current)
  moved_on target q r rs there found = elim (Bool-cases (stream_eq target id)) [
    | inl e ↦
        let same : target ≡ id = (stream_eq_iff target id).0 e in
        let eq : q ≡ r = some_inj (sym there ∙ ap (λ i. find_stream i rs) same ∙ found) in
        (
          moved (q.current + 1) r,
          find_stream-update id target (q.current + 1) rs ∙ simp (e, found),
          subst (λ x. x.current ≤ q.current + 1) eq (omega arith),
        )
    | inr e ↦ (r, find_stream-update id target (q.current + 1) rs ∙ simp (e, found), omega arith)
  ]

  kept_prefix :
      (s : Store) (target : StreamId) (content : Content) (n : ℕ)
      (o : Store × Result StoreErrorCode StoredEvent) (e : StoredEvent)
      → Reaches id m s
      → IsConsistent o.0
      → Appends s target content n o
      → o.1 ≡ ok e
      → Reaches id m o.0 × ((a : ℕ) → list_events o.0 id a (some m) ≡ list_events s id a (some m))
  unfolding list_events new_event
  kept_prefix s target content n (t, err code) e h c k bad = cc
  kept_prefix s target content n (t, ok f) e h c (q, there, events, streams, w, md) good =
      let (r', found', grows) = moved_on target q h.stream s.streams there h.found in
      (
        record {
          consistent = c;
          writable = w ∙ h.writable;
          maintenance = md ∙ h.maintenance;
          stream = r';
          found = ap (find_stream id) streams ∙ found';
          high = omega (arith, h.high, grows);
        },
        λ a. ap (sort_by (λ x. x.cursor)) (
            ap (keep (λ x. stream_eq x.stream_id id && (ltb a x.cursor && leb x.cursor m))) events
            ∙ keep-snoc_beyond (λ x. stream_eq x.stream_id id && (ltb a x.cursor && leb x.cursor m))
                s.events (new_event s target content n q)
                (is_beyond s target content n a q h.stream there h.found h.high)),
      )

  -- What a stream holds up to a cursor that it has reached stays as it is.
  pub Later-prefix :
      (s t : Store)
      → Later s t
      → Reaches id m s
      → Reaches id m t × ((a : ℕ) → list_events t id a (some m) ≡ list_events s id a (some m))
  Later-prefix _ _ (at_once s) h = (h, λ a. refl)
  Later-prefix _ _ (behind s t target content n e good rest) h =
      let u = append_event s target content n in
      let (h', same) =
        kept_prefix s target content n u e h
          (append_event-IsConsistent s target content n h.consistent)
          (append_event-Appends s target content n h.consistent h.writable h.maintenance) good in
      let (h'', same') = Later-prefix u.0 t rest h' in (h'', λ a. same' a ∙ same a)
