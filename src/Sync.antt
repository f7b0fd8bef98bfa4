-- ===== src/Sync.antt =====
-- Shipping the outbox through a transport (hermes_flight_recorder/collector/sync.py): the wire
-- format and the batches are in Batches, the delivery loop is in Deliver, the wrapped keys are
-- in Keys, and the in-memory transport of both is in Ledger.
pub mod Batches
pub mod Deliver
pub mod Keys
pub mod Ledger
