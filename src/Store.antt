-- ===== src/Store.antt =====
-- packages/bridge/src/core/store.ts: the store's state and its transactions. A statement of the code
-- runs on the rows as lists; a list's order is the order of insertion.
pub mod Samples
pub mod Transactions
pub mod Journal
pub mod Leases
pub mod Commands
pub mod Credentials
pub mod Queue
pub mod Dialogs
pub mod Devices
use pi_mob.Prelude.{
  ℕ, ◌+◌, Bool, true, false, ◌||◌, Option, none, some, List, [], ◌∷◌, ◌++◌, if◌then◌else◌, Result,
  ok, err,
}
use pi_mob.Tables.{
  StoredEvent, Stream, StoredCommand, Lease, QueueItem, Dialog, Secret, Credential, CanonicalRecord,
  Device, DedupRow,
}

pub data StoreErrorCode : Type 0 where
  busy full readonly corrupt io conflict not_found : StoreErrorCode

-- What a transaction's body throws: a StoreError of the code, or any other error, such as the
-- database's for a broken constraint.
pub data Fault : Type 0 where
  store_error : StoreErrorCode → Fault
  broken_constraint : Fault

pub record Store : Type 0 where
  pub now : ℕ
  pub writable : Bool
  pub maintenance : Bool
  pub sessions : List ℕ
  pub streams : List Stream
  pub events : List StoredEvent
  pub commands : List StoredCommand
  pub leases : List Lease
  pub queue : List QueueItem
  pub dialogs : List Dialog
  pub secrets : List Secret
  pub credentials : List Credential
  pub devices : List Device
  pub dedup : List DedupRow
  -- `canonical_session_sequences`, a session and its last sequence, and `canonical_session_events`.
  pub sequences : List (ℕ × ℕ)
  pub canonical : List CanonicalRecord
  -- `collectingEvents`: the events of the open transaction.
  pub collecting : List StoredEvent
  -- The events that the listeners have been called with.
  pub published : List StoredEvent

-- The body of a transaction.
abbrev pub Tx : Type 0 → Type 0
Tx A = Store → Result Fault (Store × A)

infixl 5 ◌>>=◌ ◌>>◌
abbrev pub ◌>>=◌ : {A B : Type 0} → Tx A → (A → Tx B) → Tx B
◌>>=◌ m f s = elim (m s) [ ok (s', a) ↦ f a s' | err e ↦ err e ]

abbrev pub ◌>>◌ : {A B : Type 0} → Tx A → Tx B → Tx B
◌>>◌ m k s = elim (m s) [ ok (s', a) ↦ k s' | err e ↦ err e ]

abbrev pub return : {A : Type 0} → A → Tx A
return a s = ok (s, a)

abbrev pub throw : {A : Type 0} → StoreErrorCode → Tx A
throw code s = err (store_error code)

-- `throw` unless the test holds.
abbrev pub require : Bool → StoreErrorCode → Tx (Unit {0})
require b code s = if b then ok (s, tt) else err (store_error code)

-- A statement that the schema refuses unless the test holds.
abbrev pub constraint : Bool → Tx (Unit {0})
constraint b s = if b then ok (s, tt) else err broken_constraint

-- `mapError`: an error that is not a StoreError has the code `io`, and the store takes no more writes.
abbrev pub map_error : Store → Fault → Store × StoreErrorCode
map_error s (store_error code) = (s, code)
map_error s broken_constraint = (record s { writable = false }, io)

-- COMMIT and the calls of the listeners, which are taken not to throw and to run no transaction, or
-- ROLLBACK.
abbrev pub conclude :
    {A : Type 0} → Store → Result Fault (Store × A) → Store × Result StoreErrorCode A
conclude s (ok (s', a)) =
    (record s' { published = s'.published ++ s'.collecting; collecting = [] }, ok a)
conclude s (err e) = let (s', code) = map_error s e in (s', err code)

unfoldable pub transaction : {A : Type 0} → Tx A → Store → Store × Result StoreErrorCode A
transaction body s =
    if s.writable
    then (if s.maintenance
        then (s, err readonly)
        else conclude s (body (record s { collecting = [] })))
    else (s, err readonly)
