-- ===== src/Wallet.antt =====
-- The wallet (wallet/src): its operations and its payment requests.
pub mod Operations
pub mod PaymentRequest
mod Tests
