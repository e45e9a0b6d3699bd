-- ===== src/Store.antt =====
-- packages/drivers-local/src/memory-state-store.ts: the transactional state store of a local
-- runtime. Transaction is the staged view, Commit the optimistic commit, Session the life of a
-- `transact` call, Reads the scans, Outbox the claimed deliveries.
pub mod Types
pub mod Transaction
pub mod State
pub mod Commit
pub mod Session
pub mod Reads
pub mod Outbox
pub mod Fencing
pub mod System
