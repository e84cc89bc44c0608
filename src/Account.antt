-- ===== src/Account.antt =====
-- Cash, orders and transactions of users: models/User.go with models/Transaction.go, and the closing
-- of orders in models/Ask.go and models/Bid.go.
pub mod State
pub mod Tx
pub mod Tax
pub mod Close
pub mod Fill
pub mod Yields
pub mod FillCases
pub mod Outcome
pub mod Success
pub mod Cancel
pub mod Market
pub mod Money
pub mod Placing
pub mod Users
pub mod Holding
pub mod Blocking
pub mod ShortSell
pub mod Exchange
pub mod Mortgage
pub mod Dividends
