-- ===== src/Account/Placing.antt =====
-- PlaceAskOrder and PlaceBidOrder of models/User.go.
pub mod Checks
pub mod Rules
pub mod Rows
pub mod Place
pub mod Saved
pub mod Outcome
pub mod Active
