-- ===== src/Account/Mortgage.antt =====
-- PerformMortgageTransaction of models/User.go with models/MortgageDetail.go.
pub mod Bank
pub mod Perform
pub mod Outcome
pub mod Cash
