-- ===== src/Lib.antt =====
-- The core of the Dalal Street server: a stock exchange game in which users place asks
-- and bids, an order book for each stock matches them, and the market depth is broadcast.
--
-- The parts of the program and the files that model them:
--   Order            models/Ask.go, models/Bid.go: the order types and the struct of an order, which
--                    is one record for `Ask` and `Bid`. Order/Comparator has bidComparator and
--                    askComparator of matchingengine/pqueue.go.
--   Heap, Pqueue     matchingengine/pqueue.go: `less`, `exch`, `swim` and `sink` over any items (Heap),
--                    and the queues of orders (Pqueue). Go has each method twice, for bids and for
--                    asks, with the same text; here there is one.
--   Depth            datastreams/MarketDepth.go: the quantities at each price, the changes that wait
--                    for a broadcast, and the latest trades.
--   Book             matchingengine/OrderBook.go and matchingengine/helpers.go: loading, submitting,
--                    matching, trading and cancelling orders, and stop-loss orders. The mirror images
--                    for asks and bids are one function over a `Side`.
--   Engine           matchingengine/MatchingEngine.go: the order books of all stocks, which share the
--                    rest of the server (Engine/Defs).
--   Account          models/User.go, models/Transaction.go and the Close methods of models/Ask.go and
--                    models/Bid.go: PerformOrderFillTransaction (Account/Fill), CancelOrder
--                    (Account/Cancel) and the taxes (Account/Tax). Account/Tx is a database
--                    transaction, and Account/Market makes the accounts an exchange for the book.
--                    Account/Placing is PlaceAskOrder and PlaceBidOrder with createAsk, createBid, the
--                    order fee and the lending of models/ShortSell.go; Account/ShortSell is its
--                    SquareOffLends, Account/Users the users in memory, with getUserExclusively,
--                    SetBlockUser and UnBlockAllUsers.
--                    Account/Exchange is PerformBuyFromExchangeTransaction, Account/Mortgage is
--                    PerformMortgageTransaction with models/MortgageDetail.go, and Account/Dividends
--                    is models/Dividends.go, where the locks on users are part of the state.
--   Stock            models/Stock.go: the struct (Stock), the variables `allStocks` and `avgLastPrice`
--                    (Stock/Floor), the updates of one stock (Stock/Update), and loading and the end
--                    and start of a day (Stock/Day).
--   History          models/StockHistory.go: the recorder of one minute (History/Minute) and of longer
--                    intervals (History/Interval, History/Record).
--   Leaderboard      models/LeaderboardRow.go: UpdateLeaderboard and GetLeaderboard.
--   Ipo              models/Ipo.go and models/IpoBid.go: bids for slots and their cancellation
--                    (Ipo/Bid), the opening of an IPO and the allotment (Ipo/Allot), and what the
--                    changes of a user's cash have in common (Ipo/Funds).
--   Challenge        models/DailyChallenge.go: adding and opening the challenges of a day
--                    (Challenge/Opening), closing them (Challenge/Closing) and the claim of a reward
--                    (Challenge/Reward).
--   Inspect          models/InspectComponents.go and models/InspectUserDegree.go: the graph of trades
--                    (Inspect/Graph), the search for its components (Inspect/Components) and the
--                    volumes of trades with users of one partner (Inspect/Degree), where sort.Slice
--                    is an argument. Both panic above 2000 users, since the table of weights is of
--                    that size.
--   Base             shared names, Go's uint64 and int64 as bit patterns, and Go's order of strings.
--   Tests            concrete books, runs on them, and the theorems at concrete inputs.
--
-- How the parts interact: the book keeps the orders of each side in a table, and its queues hold keys
-- of the table, as Go's queues hold pointers, so a comparison sees a change made elsewhere. The book
-- calls the depth and, through the record `Exchange`, the rest of the server: `fill` is `fillOrderFn`,
-- which fills two orders, `current_price` the price of a stock, `save` a database write, `clock` the
-- time. What the book relies on in `fill` is the record `IsFill`.
--
-- The accounts see the database, the clock, floating point, the locks on users, the maps of open
-- orders and the updates of stocks through the record `Server`.
--
-- The lock on all stocks is a flag of Stock/Floor: an operation that leaves it set has kept the lock,
-- and a call that waits for it gives none. Locks on single stocks and users are left out, since the
-- caller holds them for the whole call, but in Account/Dividends, Ipo, Leaderboard and Challenge,
-- which work on Account/Holding: the users with the locks that are held.
--
-- Fuel: a search over the graph of trades has two more than the number of edges of the nodes that are
-- not visited, since it pushes at most these and pops one in each round.
-- `swim` has the index for fuel and `sink` the number of items; the loops over queues have the
-- number of waiting orders, and processAsk and processBid that of the opposite side with its
-- stop-loss orders, since each further round removes one. The loop of clearExistingOrders has the
-- waiting orders of both sides, one of which leaves the queues in each further round.
-- Numbers: prices and quantities are uint64, kept as numbers; subtraction and addition that the code
-- does on them wraps at 2 ^ 64 where it is written, and int64 values are kept as bit patterns. The
-- number of items in a queue is far below the range of int.
-- Concurrency: a method under a lock, and a round of the goroutine of a book, is one step; what other
-- goroutines do happens between the steps (Book/Reach).
--
-- Not modelled: logging, the protocol messages and notifications, the data streams of orders and
-- transactions, the database beyond the success or failure of a write and a commit and the few reads,
-- AddListener of the market depth, which sends the live maps from a goroutine,
-- login and registration, market events, and the parts of the server that only pass requests on.
pub mod Account
pub mod Base
pub mod Order
pub mod Stock
pub mod Engine
pub mod Inspect
pub mod Heap
pub mod History
pub mod Leaderboard
pub mod Ipo
pub mod Challenge
pub mod Pqueue
pub mod Depth
pub mod Book
pub mod Tests
