-- ===== src/Ledger.antt =====
-- The append-only event ledger: src/core/ledger/ledger.hpp and ledger.cpp.
pub mod EventType
pub mod Event
pub mod Payload
pub mod Index
pub mod Store
pub mod RoundTrip
pub mod Chain
pub mod Runs
mod Tests
pub mod Queries
pub mod Sync
pub mod File
pub mod Reload
