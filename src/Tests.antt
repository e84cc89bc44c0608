-- ===== src/Tests.antt =====
-- Tests of the matching engine, the market depth, the accounts, the stocks and the inspection of
-- trades at concrete inputs, and the theorems at these.
pub mod Histories
pub mod Boards
pub mod Ipos
pub mod Lends
pub mod Challenges
pub mod Sample
pub mod Servers
pub mod Queues
pub mod Depths
pub mod Books
pub mod Engines
pub mod Accounts
pub mod Stocks
pub mod Placing
pub mod Inspection
pub mod Payments
