-- ===== src/Domain.antt =====
-- backend/internal/domain: money math and round rules, without I/O. One module for each file.
pub mod Economy
pub mod Refill
pub mod Round
pub mod Wallet
pub mod Odds
pub mod Payout
