-- ===== src/Gossip.antt =====
-- Gossip between peers: src/network/gossip.hpp and gossip.cpp.
pub mod Announce
pub mod Message
pub mod Protocol
mod Tests
