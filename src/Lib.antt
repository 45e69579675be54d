-- ===== src/Lib.antt =====
-- pi-mob: the bridge between a mobile client and the agent sessions of a host.
--
-- The bridge (packages/bridge) runs beside the agents. It reads their output as JSON lines, keeps what
-- happened in a durable SQLite store, takes commands from the mobile client and hands each to an agent,
-- and streams events to the clients that subscribe. The library models the parts whose state is the
-- program's own:
--
--   Jsonl       packages/bridge/src/pi/jsonl.ts, JsonlDecoder: push, finish, reset.
--   Cursor      packages/protocol-schema/src/index.ts, compareDecimalCursors, and the comparison of
--               cursors in the SQL of packages/bridge/src/core/store.ts.
--   Tables      packages/bridge/src/core/store.ts, the rows.
--   Store       the same file: transaction, transactionOn, mapError, with a child for each table:
--     Journal   ensureSession, ensureStream, appendEvent, appendEventIdempotent, listEvents, pageEvents,
--               readReplay.
--     Leases    applyLeaseMutationTx and what calls it, and assertController of core/domain.ts.
--     Commands  acceptCommand, transitionCommand, markUncertainIndeterminate.
--     Credentials  the enrollment secrets and the credentials of installations.
--     Queue     enqueueFollowUp, listFollowUps, removeFollowUp, clearFollowUps, claimNextFollowUp,
--               finishFollowUp, recoverDispatchingFollowUps, emitQueueStateTx.
--     Dialogs   createDialog, pendingDialog, claimDialogResponse, orphanPendingDialogs, expireDialogs.
--     Devices   registerDeviceInstall, replaceDeviceToken, the removals, markDeviceRejected, and the
--               published source events.
--   Enrollment  packages/bridge/src/auth, enrollment.ts, revoke.ts and the hashes of credentials.ts.
--   RateQuota   packages/bridge/src/auth/rate-quota.ts, canUpload and reserveBytes.
--   Attachments  packages/bridge/src/core/attachments.ts, AttachmentStore: Names (the checks of texts),
--               Begin, Append (appendChunk, complete), Ends (abort, sweep, retain, resolve), Stream (the
--               reader).
--   Dispatch    packages/bridge/src/core/domain.ts, DurableCommandService with CommandLanes.
--   Sync        the same file, StreamService and StreamContinuityTracker, and captureSnapshot.
--   SessionLog  packages/bridge/src/session-events/canonical-session-store.ts, CanonicalSessionStore.
--   Transport   packages/bridge/src/session-events/canonical-event-transport.ts, CanonicalEventTransport.
--   Supervisor  packages/bridge/src/core/process-supervisor.ts, ProcessSupervisor, with Starting (start,
--               exits, retries) and Rounds (the rounds of tick and drain).
--   Notifications  packages/bridge/src/notifications: policy.ts, the class Coalescer of coalesce.ts, and
--               service.ts, BridgeNotificationService (its publishing in Service, the rest in Upkeep):
--               what is sent is a list, and what a transport answers is an action.
--   Prelude     what the others share: tests on numbers, lists as tables, runs of numbers, results.
--
-- How the state corresponds. A table is the list of its rows in the order of insertion; a statement of
-- SQL is a function on that list, with the keys and the unique indices that it can break. Ids, hashes,
-- texts and times are natural numbers that are only compared, except where the code reads characters
-- (Cursor, the parts of a snapshot, Jsonl). A transaction's body is a function from the store to a
-- fault or to the store and a value; `transaction` commits it and calls the listeners, or rolls it
-- back. A cursor in the tables is the number that its text stands for, which the theorems of Cursor
-- justify. The ids that uuid() makes and the clock are arguments or a field. A task of a command lane is
-- two steps, around its await of the adapter; between them any other step may happen. A run of calls,
-- of the queue, the dialogs or the notifications, is a list of them.
--
-- Fuel. The loop of push runs on more fuel than there are bytes, and each round takes one byte at least.
-- The client that catches up runs on a number of pages, of which more than the records suffice; so does
-- the client that reads the pages of the journal.
--
-- Not modelled: opening, migrating and backing up the database, sockets and child processes, the schema
-- declarations, the operations of the installer. A transaction that fails because the database is busy
-- or full is not modelled either; the faults are the code's own errors and broken constraints. The
-- listeners of the store and of the transport are taken not to throw, and to run no transaction: one
-- that throws makes append throw with its row committed. The
-- state of a session in a snapshot is a parameter, and the stored state of a session, which the queue
-- updates with its count, is left out. The texts of a notification and the check that they are safe are
-- given with the status.
pub mod Prelude
pub mod Jsonl
pub mod Attachments
pub mod Cursor
pub mod Tables
pub mod Store
pub mod Supervisor
pub mod Sync
pub mod Dispatch
pub mod Enrollment
pub mod RateQuota
pub mod SessionLog
pub mod Transport
pub mod Notifications
