-- ===== src/Account/Dividends.antt =====
-- models/Dividends.go: the dividends of a stock.
pub mod Pay
pub mod Credits
pub mod Revert
pub mod Round
pub mod Outcome
pub mod Success
