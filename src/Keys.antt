-- ===== src/Keys.antt =====
-- Participation keys: src/core/keys/key.hpp and key.cpp.
pub mod KeyType
pub mod Key
pub mod Transfer
pub mod Vouch
pub mod Manager
mod Tests
pub mod Decay
pub mod RoundTrip
