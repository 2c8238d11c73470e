-- ===== src/Relay.antt =====
-- The relay (relay/src): one delivery slot for each registered order.
pub mod Protocol
pub mod Store
pub mod Server
mod Tests
