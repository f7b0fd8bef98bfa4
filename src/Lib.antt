-- ===== src/Lib.antt =====
-- Hermes Flight Recorder: the durable core of the collector. Producers append event envelopes to
-- an outbox, a sync pass delivers them in batches to an ingestion service, and retention removes
-- what was delivered.
--
-- Envelope (hermes_flight_recorder/envelope.py): the field table, the vocabulary and validate.
--   Envelope.Spec says what a valid envelope is; Envelope.Stored is about serialize's sorted keys.
-- Outbox (hermes_flight_recorder/collector/outbox.py): State has the tables, the meta values and
--   the cursors; Insert the row and its constraints; Sound the invariant; Append is _append, with
--   Records for the records that it builds; Prune is prune_delivered with its tombstones.
-- Sync (hermes_flight_recorder/collector/sync.py): Batches is build_batches, Deliver is sync over
--   any transport, Keys is sync_content_keys with the queries of the outbox that it calls,
--   Deliver.Memory and Keys.Memory are the channels of InMemoryTransport, and Ledger is both, over
--   a memory whose indexes are right.
-- Transport (hermes_flight_recorder/collector/transport.py): classification of replies, retries
--   and the two pushes. SyncPass (hermes_flight_recorder/collector/sync_pass.py) runs them and
--   Retention in one pass, over an outbox and a service as its state.
-- Retention (hermes_flight_recorder/collector/retention.py) calls Prune with the delivery cursor
--   of Sync.
-- Watermark (hermes_flight_recorder/collector/watermark.py) stands on the cursors of the outbox.
-- Capture (hermes_flight_recorder/collector/_common.py): build_record and append_and_count.
-- Reconcile (hermes_flight_recorder/collector/reconcile.py, reconcile_common.py and
--   reconcile_runtime.py beside it): the detectors as functions to findings, which emit_finding
--   hands to Capture; Gaps reads the outbox, Cron the fires of a schedule, Missed those of the
--   jobs, Terminals the summaries of the events, Unemitted the knowledge store, Runtime the leases
--   and heartbeats.
-- Knowledge (hermes_flight_recorder/collector/outbox_knowledge.py): blobs, artifacts and
--   versions. Knowledge.Snapshot (hermes_flight_recorder/collector/knowledge_store.py): the
--   snapshot of the files of an artifact within its limits.
-- Base, Value, Result and Exec are shared: numbers and lists, JSON values and their text,
--   exceptions as values, methods with a state. Tests has concrete runs.
--
-- A dictionary is a list of fields in insertion order; a float is a number of millionths and not
-- negative; int() reads an optional sign and ASCII digits. The envelope_json column is the value
-- with sorted keys that its text stands for. One outbox is one installation; a missing row of the
-- table seq is the high water 0. The clock, the random identities and the results of cryptography
-- are the fields of `Call`, the result of the secret scan is `Scan`. A transport is the parameter
-- `send`, and what the code relies on is `IsDurable`: it acknowledges only what it durably holds.
-- A generator is the list of its yields with the way it ends; islice cuts it. The pieces of
-- content take the number of its bytes as fuel, which is enough since a piece is not empty; a
-- retry loop is bounded by max_attempts; the loop over the fires of an interval has fuel for each
-- fire and each microsecond of the clock, more than its rounds. A service that both channels of a
-- pass reach is `IsService`, and one that is up is `IsReliable`.
--
-- Not modelled: SQLite's own work (sizes, VACUUM and migrations), the commit or rollback of a
-- whole batch() block, the cache of the capture horizon, decryption, exception messages and log
-- lines, delays, the adapters that read the sources, the remaining detectors (coverage, knowledge
-- drift, gateway start) and what loads their rows, the walk over the knowledge directories and
-- the command line.
pub mod Base
pub mod Value
pub mod Result
pub mod Exec
pub mod Envelope
pub mod Outbox
pub mod Sync
pub mod Transport
pub mod SyncPass
pub mod Capture
pub mod Reconcile
pub mod Knowledge
pub mod Retention
pub mod Watermark
pub mod Tests
