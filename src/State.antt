-- ===== src/State.antt =====
-- The state that a node derives from its ledger: src/core/ledger/state.hpp and state.cpp.
pub mod Records
pub mod Manager
mod Tests
