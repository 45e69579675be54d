-- ===== src/SessionLog/Appending.antt =====
-- packages/bridge/src/session-events/canonical-session-store.ts: what `append` does on every branch.
use pi_mob.Prelude.{
  ℕ, ◌+◌, ◌<◌, ◌≡◌, refl, Bool, true, false, not, ◌&&◌, ◌||◌, Option, none, some, List, [], ◌∷◌,
  ◌++◌, arith, ◌==◌, if◌then◌else◌, has, Result, ok, err, Run-below, Bool-cases, inl, inr, subst,
  sym, All, All-map,
}
use pi_mob.Tables.{CanonicalRecord}
use pi_mob.Store.{Store, conclude, io, broken_constraint}
use pi_mob.Store.Transactions.{transaction-open}
use pi_mob.SessionLog.{
  AppendInput, AppendResult, AppendError, store_failed, SessionLog, events_of, latest_sequence,
  bump_sequence, insert_record_tx, validate_canonical_envelope, new_record, append_record_tx,
  is_unnamed, append_found, find_source, append_tx, append_done, append, is_canonical_event_type,
  is_bounded,
}
use pi_mob.SessionLog.Sequenced.{IsSequenced, recorded, recorded-IsSequenced, latest-bump_same}

-- A store after a transaction that publishes no event of the journal.
abbrev pub committed : Store → Store
committed s = record s { published = s.published ++ []; collecting = [] }

no_clash :
    (session n id : ℕ) (rs : List CanonicalRecord)
    → All (λ r. r.sequence < n) (events_of session rs)
    → has (λ o. (o.session_id == session && o.sequence == n) || (o.event_id == id)) rs
      ≡ has (λ o. o.event_id == id) rs
no_clash session n id [] h = refl
no_clash session n id (r ∷ rs) h = elim (Bool-cases (r.session_id == session)) [
  | inl e ↦
      let k = rw e at h in
      let low : r.sequence < n = k.0 in ground (arith, e, low, no_clash session n id rs k.1)
  | inr e ↦ ground (arith, e, no_clash session n id rs (rw e at h))
]

module _ (text_length : ℕ → ℕ) (is_object : ℕ → Bool) where
  append_record_tx-exact :
      (r : CanonicalRecord) (s : Store)
      → has
          (λ o.
            (o.session_id == r.session_id && o.sequence == r.sequence)
            || (o.event_id == r.event_id))
          s.canonical
        ≡ has (λ o. o.event_id == r.event_id) s.canonical
      → append_record_tx text_length is_object r s ≡ (
          if validate_canonical_envelope text_length is_object r
            && not (has (λ o. o.event_id == r.event_id) s.canonical)
          then ok (
            record s { canonical = s.canonical ++ (r ∷ []) },
            record { event = r; deduplicated = false },
          )
          else err broken_constraint)
  unfolding append_record_tx insert_record_tx
  append_record_tx-exact r s h =
      elim (Bool-cases (validate_canonical_envelope text_length is_object r)) [
        | inl e ↦ elim (Bool-cases (has (λ o. o.event_id == r.event_id) s.canonical)) [
          | inl k ↦ rw (e, h, k) refl
          | inr k ↦ rw (e, h, k) refl
        ]
        | inr e ↦ rw e refl
      ]

  -- The record that an append makes.
  abbrev pub made : AppendInput → ℕ → Store → CanonicalRecord
  made i id s = new_record text_length is_object i id (bump_sequence i.session_id s)

  abbrev pub is_admitted : AppendInput → ℕ → Store → Bool
  is_admitted i id s =
      validate_canonical_envelope text_length is_object (made i id s)
      && not (has (λ o. o.event_id == (made i id s).event_id) s.canonical)

  -- What `append` does, by whether the input's source is an empty text, by the record with that
  -- source, and by whether the new record is admitted.
  abbrev pub Outcome :
      SessionLog
      → CanonicalRecord
      → Bool
      → Option CanonicalRecord
      → Bool
      → SessionLog × Result AppendError AppendResult
      → Type 0
  Outcome l r true f b o =
      o ≡ (record l { store = record l.store { writable = false } }, err (store_failed io))
  Outcome l r false (some q) b o = o ≡ (
    record l { store = committed l.store; deduplicated_count = l.deduplicated_count + 1 },
    ok (record { event = q; deduplicated = true }),
  )
  Outcome l r false none true o = o ≡ (
    record l {
      store = committed (recorded l.store r);
      appended_count = l.appended_count + 1;
      notified = l.notified ++ (r ∷ []);
    },
    ok (record { event = r; deduplicated = false }),
  )
  Outcome l r false none false o =
      o ≡ (record l { store = record l.store { writable = false } }, err (store_failed io))

  module _ (s : Store) (i : AppendInput) (id : ℕ) (c : IsSequenced s) where
    made-sequence : (made i id s).sequence ≡ latest_sequence s i.session_id + 1
    made-sequence = latest-bump_same i.session_id s

    insert-free :
        has
          (λ o.
            (o.session_id == i.session_id && o.sequence == (made i id s).sequence)
            || (o.event_id == (made i id s).event_id))
          s.canonical
        ≡ has (λ o. o.event_id == (made i id s).event_id) s.canonical
    insert-free = no_clash i.session_id (made i id s).sequence (made i id s).event_id s.canonical (
        All-map (λ r h. omega (arith, made-sequence, c.count i.session_id, h))
          (events_of i.session_id s.canonical)
          (Run-below (λ r. r.sequence) 0 (events_of i.session_id s.canonical) (c.run i.session_id)))

    append_new-exact : append_found text_length is_object i id none s ≡ (
        if is_admitted i id s
        then ok (recorded s (made i id s), record { event = made i id s; deduplicated = false })
        else err broken_constraint)
    unfolding append_found
    append_new-exact =
        append_record_tx-exact (made i id s) (bump_sequence i.session_id s) insert-free

  append_done-admitted :
      (l : SessionLog) (r : CanonicalRecord) (b : Bool)
      → Outcome l r false none b (
          append_done text_length is_object l (
            conclude l.store (
              if b
              then ok (
                recorded (record l.store { collecting = [] }) r,
                record { event = r; deduplicated = false },
              )
              else err broken_constraint)))
  unfolding append_done
  append_done-admitted l r true = refl
  append_done-admitted l r false = refl

  append_done-Outcome :
      (l : SessionLog) (i : AppendInput) (id : ℕ) (o : Option CanonicalRecord)
      → IsSequenced l.store
      → Outcome l (made i id l.store) false o (is_admitted i id l.store) (
          append_done text_length is_object l (
            conclude l.store
              (append_found text_length is_object i id o (record l.store { collecting = [] }))))
  unfolding append_done append_found
  append_done-Outcome l i id none c =
      subst
        (λ o.
          Outcome l (made i id l.store) false none (is_admitted i id l.store)
            (append_done text_length is_object l (conclude l.store o)))
        (sym (
          append_new-exact (record l.store { collecting = [] }) i id
            (record { run = c.run; count = c.count })))
        (append_done-admitted l (made i id l.store) (is_admitted i id l.store))
  append_done-Outcome l i id (some q) c = refl

  append_done-sourced :
      (l : SessionLog) (i : AppendInput) (id : ℕ) (e : Bool) (o : Option CanonicalRecord)
      → IsSequenced l.store
      → Outcome l (made i id l.store) e o (is_admitted i id l.store) (
          append_done text_length is_object l (
            conclude l.store (
              if e
              then err broken_constraint
              else append_found text_length is_object i id o (record l.store { collecting = [] }))))
  unfolding append_done
  append_done-sourced l i id true o c = refl
  append_done-sourced l i id false o c = append_done-Outcome l i id o c

  module _ (l : SessionLog) (i : AppendInput) (id : ℕ) (c : IsSequenced l.store)
      (writes : l.store.writable ≡ true) (open_store : l.store.maintenance ≡ false)
      (type : is_canonical_event_type i.type ≡ true)
      (session : is_bounded text_length is_object i.session_id 128 ≡ true)
      (known : has (λ n. n == i.session_id) l.store.sessions ≡ true) where
    -- For a canonical type and a known session whose name has 1 to 128 characters, on sequenced logs
    -- and a store that takes writes and is not in maintenance: a source that is not empty and that the
    -- session's log has gives its record again and changes no row. Without a source, or with one that
    -- is not empty and that the log lacks, a valid envelope with a fresh id is recorded at the
    -- session's next sequence, and then notified, and an invalid envelope or a taken id throws. That
    -- throw, and the one on an empty source, changes no row, notifies nobody, and leaves a store that
    -- takes no more writes.
    pub append-Outcome :
        Outcome l
          (made i id l.store)
          (is_unnamed text_length is_object i.source_event_id)
          (find_source text_length is_object i l.store i.source_event_id)
          (is_admitted i id l.store)
          (append text_length is_object l i id)
    unfolding append append_tx find_source
    append-Outcome =
        subst
          (λ o.
            Outcome l (made i id l.store) (is_unnamed text_length is_object i.source_event_id)
              (find_source text_length is_object i l.store i.source_event_id)
              (is_admitted i id l.store) o)
          (sym (
            simp (
              type,
              session,
              known,
              transaction-open (append_tx text_length is_object i id) l.store writes open_store,
            )))
          (append_done-sourced l i id (is_unnamed text_length is_object i.source_event_id)
            (find_source text_length is_object i l.store i.source_event_id) c)

    made_sequence : (made i id l.store).sequence ≡ latest_sequence l.store i.session_id + 1
    made_sequence = latest-bump_same i.session_id l.store

    -- For a canonical type and a known session whose name has 1 to 128 characters, on a store that
    -- takes writes and is not in maintenance: an append leaves sequenced logs sequenced, on every
    -- branch.
    pub append-IsSequenced : IsSequenced (append text_length is_object l i id).0.store
    append-IsSequenced =
        kept (is_unnamed text_length is_object i.source_event_id)
          (find_source text_length is_object i l.store i.source_event_id) (is_admitted i id l.store)
          (append text_length is_object l i id) append-Outcome
      where
        kept :
            (e : Bool) (o : Option CanonicalRecord) (b : Bool)
            (p : SessionLog × Result AppendError AppendResult)
            → Outcome l (made i id l.store) e o b p
            → IsSequenced p.0.store
        kept true o b p h =
            subst (λ (u : SessionLog × Result AppendError AppendResult). IsSequenced u.0.store)
              (sym h) (record { run = c.run; count = c.count })
        kept false (some q) b p h =
            subst (λ (u : SessionLog × Result AppendError AppendResult). IsSequenced u.0.store)
              (sym h) (record { run = c.run; count = c.count })
        kept false none true p h =
            let k = recorded-IsSequenced l.store (made i id l.store) made_sequence c in
            subst (λ (u : SessionLog × Result AppendError AppendResult). IsSequenced u.0.store)
              (sym h) (record { run = k.run; count = k.count })
        kept false none false p h =
            subst (λ (u : SessionLog × Result AppendError AppendResult). IsSequenced u.0.store)
              (sym h) (record { run = c.run; count = c.count })
