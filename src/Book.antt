-- ===== src/Book.antt =====
-- matchingengine/OrderBook.go: the order book of one stock. The code for asks and the code for bids
-- are mirror images, one function each; here a `Side` selects the tables and queues. The orders
-- stand in a table for each side, and a pointer to an order is its key there.
-- Book/State has the book, Book/Match getTopMatchingBid and getTopMatchingAsk, Book/Trade makeTrade
-- and triggerStopLosses, Book/Process processAsk and processBid, Book/Session the methods that the
-- engine calls. A function that ends in `none` has panicked or run out of fuel; the theorems show
-- that neither happens to a valid book.
pub mod State
pub mod Valid
pub mod Steps
pub mod Match
pub mod Skip
pub mod TopMatch
pub mod Trade
pub mod Fire
pub mod StopLoss
pub mod StopLosses
pub mod MakeTrade
pub mod Price
pub mod Process
pub mod Processed
pub mod Session
pub mod Reach
