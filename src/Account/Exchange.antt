-- ===== src/Account/Exchange.antt =====
-- PerformBuyFromExchangeTransaction of models/User.go.
pub mod Buy
pub mod Outcome
pub mod Success
