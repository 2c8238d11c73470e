-- ===== src/Faucet.antt =====
-- The faucet (faucet/src): pays fixed mint quotes, within limits for each browser, network and day.
pub mod Protocol
pub mod Store
pub mod Upstream
pub mod Service
pub mod Server
mod Tests
