-- ===== src/SessionLog.antt =====
-- packages/bridge/src/session-events/canonical-session-store.ts: the canonical log of the sessions'
-- events, and validateCanonicalEnvelope of canonical-event.ts.
pub mod Sequenced
pub mod Reading
pub mod Appending
pub mod Tests
use pi_mob.Prelude.{
  ℕ, zero, suc, ◌+◌, ◌-◌, ◌^◌, Bool, true, false, not, ◌&&◌, ◌||◌, Option, none, some, List, [],
  ◌∷◌, ◌++◌, ltb, leb, ◌==◌, if◌then◌else◌, first, has, keep, update, sort_by, take, length, min,
  Result, ok, err,
}
use pi_mob.Tables.{CanonicalRecord}
use pi_mob.Store.{Store, Tx, transaction, StoreErrorCode, broken_constraint}

pub data AppendError : Type 0 where
  unknown_type : AppendError
  invalid_session : AppendError
  not_provisioned : AppendError
  store_failed : StoreErrorCode → AppendError

pub record AppendInput : Type 0 where
  pub session_id : ℕ
  pub type : ℕ
  pub payload : ℕ
  pub source_event_id : Option ℕ
  pub event_id : Option ℕ
  pub occurred_at : Option ℕ

pub record AppendResult : Type 0 where
  pub event : CanonicalRecord
  pub deduplicated : Bool

-- The service: the store, its counters, and the records that the listeners were called with.
pub record SessionLog : Type 0 where
  pub store : Store
  pub appended_count : ℕ
  pub deduplicated_count : ℕ
  pub notified : List CanonicalRecord

-- The number of CANONICAL_EVENT_TYPES, which the types are numbered by.
abbrev canonical_event_types : ℕ
canonical_event_types = 39

abbrev pub is_canonical_event_type : ℕ → Bool
is_canonical_event_type type = ltb type canonical_event_types

abbrev canonical_max_sequence : ℕ
canonical_max_sequence = 2 ^ 53 - 1

abbrev pub events_of : ℕ → List CanonicalRecord → List CanonicalRecord
events_of session = keep (λ r. r.session_id == session)

abbrev or_zero : Option (ℕ × ℕ) → ℕ
or_zero none = 0
or_zero (some p) = p.1

-- `latestSequence`.
abbrev pub latest_sequence : Store → ℕ → ℕ
latest_sequence s session = or_zero (first (λ p. p.0 == session) s.sequences)

abbrev is_source : ℕ → Option ℕ → Bool
is_source id none = false
is_source id (some k) = k == id

-- The row that `findBySource` reads; what it throws on is `is_unnamed`.
abbrev pub find_by_source : ℕ → ℕ → List CanonicalRecord → Option CanonicalRecord
find_by_source session source =
    first (λ r. r.session_id == session && is_source source r.source_event_id)

abbrev bumped : ℕ → List (ℕ × ℕ) → List (ℕ × ℕ)
bumped session ps =
    if has (λ p. p.0 == session) ps
    then update (λ p. p.0 == session) (λ p. (p.0, p.1 + 1)) ps
    else ps ++ ((session, 1) ∷ [])

-- `bumpSequence`, whose number is then `latest_sequence`.
abbrev pub bump_sequence : ℕ → Store → Store
bump_sequence session s = record s { sequences = bumped session s.sequences }

-- `INSERT INTO canonical_session_events`: the key, and the identity.
insert_record_tx : CanonicalRecord → Tx (Unit {0})
insert_record_tx r s =
    if has
      (λ o.
        (o.session_id == r.session_id && o.sequence == r.sequence) || (o.event_id == r.event_id))
      s.canonical
    then err broken_constraint
    else ok (record s { canonical = s.canonical ++ (r ∷ []) }, tt)

abbrev or_default : Option ℕ → ℕ → ℕ
or_default none d = d
or_default (some n) d = n

-- The lengths of the texts that the numbers stand for, and whether a payload is a plain object.
module _ (text_length : ℕ → ℕ) (is_object : ℕ → Bool) where
  abbrev pub is_bounded : ℕ → ℕ → Bool
  is_bounded text most = leb 1 (text_length text) && leb (text_length text) most

  -- `validateCanonicalEnvelope`; true is `null`.
  pub validate_canonical_envelope : CanonicalRecord → Bool
  validate_canonical_envelope r =
      is_bounded r.event_id 128
      && (is_bounded r.session_id 128
          && ((leb 1 r.sequence && leb r.sequence canonical_max_sequence)
              && (is_canonical_event_type r.event_type
                  && (is_bounded r.occurred_at 64 && is_object r.payload))))

  abbrev pub new_record : AppendInput → ℕ → Store → CanonicalRecord
  new_record i id s = record {
    session_id = i.session_id;
    sequence = latest_sequence s i.session_id;
    event_id = or_default i.event_id id;
    source_event_id = i.source_event_id;
    event_type = i.type;
    occurred_at = or_default i.occurred_at s.now;
    payload = i.payload;
    created_at = s.now;
  }

  append_record_tx : CanonicalRecord → Tx AppendResult
  append_record_tx r s =
      if validate_canonical_envelope r
      then elim (insert_record_tx r s) [
        | err f ↦ err f
        | ok (t, _) ↦ ok (t, record { event = r; deduplicated = false })
      ]
      else err broken_constraint

  append_found : AppendInput → ℕ → Option CanonicalRecord → Tx AppendResult
  append_found i id none s =
      let s' = bump_sequence i.session_id s in append_record_tx (new_record i id s') s'
  append_found i id (some r) s = ok (s, record { event = r; deduplicated = true })

  pub find_source : AppendInput → Store → Option ℕ → Option CanonicalRecord
  find_source i s none = none
  find_source i s (some source) = find_by_source i.session_id source s.canonical

  -- `findBySource` throws on an empty source, and `append` looks up every source that is given.
  pub is_unnamed : Option ℕ → Bool
  is_unnamed none = false
  is_unnamed (some source) = text_length source == 0

  append_tx : AppendInput → ℕ → Tx AppendResult
  append_tx i id s =
      if is_unnamed i.source_event_id
      then err broken_constraint
      else append_found i id (find_source i s i.source_event_id) s

  append_done :
      SessionLog
      → Store × Result StoreErrorCode AppendResult
      → SessionLog × Result AppendError AppendResult
  append_done l (s, err code) = (record l { store = s }, err (store_failed code))
  append_done l (s, ok r) =
      if r.deduplicated
      then (record l { store = s; deduplicated_count = l.deduplicated_count + 1 }, ok r)
      else (
        record l {
          store = s;
          appended_count = l.appended_count + 1;
          notified = l.notified ++ (r.event ∷ []);
        },
        ok r,
      )

  -- `append`, given the id that the generator returns; the clock gives the missing time.
  pub append : SessionLog → AppendInput → ℕ → SessionLog × Result AppendError AppendResult
  append l i id =
      if not (is_canonical_event_type i.type)
      then (l, err unknown_type)
      else if not (is_bounded i.session_id 128)
      then (l, err invalid_session)
      else if not (has (λ n. n == i.session_id) l.store.sessions)
      then (l, err not_provisioned)
      else append_done l (transaction (append_tx i id) l.store)

abbrev pub max_limit : ℕ
max_limit = 4096

abbrev limited : Option ℕ → List CanonicalRecord → List CanonicalRecord
limited none rs = rs
limited (some limit) rs = take (min limit max_limit) rs

-- `readAfter`.
pub read_after : Store → ℕ → ℕ → Option ℕ → List CanonicalRecord
read_after s session after limit = limited limit (
    sort_by (λ r. r.sequence)
      (keep (λ r. r.session_id == session && ltb after r.sequence) s.canonical))
