-- ===== src/Outbox.antt =====
-- The durable outbox (hermes_flight_recorder/collector/outbox.py): the state is in State, the
-- operations in the modules below.
pub mod State
pub mod Order
pub mod Among
pub mod Insert
pub mod Sound
pub mod Append
pub mod Prune
