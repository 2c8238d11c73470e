-- ===== src/Market.antt =====
-- market/src: the market of an event, where attendees pay vendors in ecash through the relay.
pub mod Types
pub mod Errors
pub mod Fields
pub mod Manifest
pub mod Payment
pub mod Ports
pub mod Runtime
mod Tests
