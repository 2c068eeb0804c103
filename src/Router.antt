-- ===== src/Router.antt =====
-- Content-addressed routing: src/network/router.hpp and router.cpp.
pub mod Table
pub mod Request
pub mod Onion
pub mod State
pub mod Node
mod Tests
