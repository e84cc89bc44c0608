-- ===== src/Engine/Defs.antt =====
-- The matching engine: its map of order books, the calls that it passes to them, and loadOldOrders.
use dalal_street_server.Base.{ℕ, Option, none, some, List, [], ◌∷◌, ◌==◌, if◌then◌else◌, ◌>>=◌}
use dalal_street_server.Order.{Order}
use dalal_street_server.Depth.{Depth}
use dalal_street_server.Book.State.{Side, ask, bid, Transaction, Exchange, Book}
use dalal_street_server.Book.Session.{
  new_book, load_old, load_old_transactions, cancel_order, submit, start_stock_matching,
}

-- The books share the rest of the server: the world of a book is set when the book is called.
pub record Engine (World : Type 0) : Type 0 where
  pub order_books : ℕ → Option (Book World)
  pub world : World

module _ {World : Type 0} where
  abbrev pub put_book : ℕ → Book World → Engine World → Engine World
  put_book stock b e = record {
    order_books = λ j. if stock == j then some b else e.order_books j;
    world = b.world;
  }

  -- A call on the book of a stock; a stock without a book is a nil interface, a panic.
  unfoldable pub on_book :
      ℕ → (Book World → Option (Book World)) → Engine World → Option (Engine World)
  on_book stock f e = do
    b ← e.order_books stock
    b' ← f (record b { world = e.world })
    some (put_book stock b' e)

  -- CancelAskOrder and CancelBidOrder
  unfoldable pub cancel_booked : Side → ℕ → ℕ → Engine World → Option (Engine World)
  cancel_booked s stock i = on_book stock (λ b. some (cancel_order s i b))

  -- The book of a new stock; the old transactions are none if the query failed.
  unfoldable pub book_of :
      (Side → ℕ → Order) → Depth → Option (List Transaction) → World → Book World
  book_of orders depth none w = new_book orders depth w
  book_of orders depth (some ts) w = load_old_transactions ts (new_book orders depth w)

  -- The loop over the stocks.
  unfoldable pub new_books :
      (Side → ℕ → Order)
      → (ℕ → Depth)
      → (ℕ → Option (List Transaction))
      → List ℕ
      → Engine World
      → Engine World
  new_books orders depths old [] e = e
  new_books orders depths old (stock ∷ stocks) e =
      new_books orders depths old stocks
        (put_book stock (book_of orders (depths stock) (old stock) e.world) e)

  -- The loop over the open orders of a side.
  unfoldable pub load_orders :
      (Side → ℕ → Order) → Side → List ℕ → Engine World → Option (Engine World)
  load_orders orders s [] e = some e
  load_orders orders s (i ∷ ids) e =
      on_book (orders s i).stock_id (load_old s i) e >>= load_orders orders s ids

  -- loadOldOrders, with what the queries give; a query that fails is a panic.
  unfoldable pub load_old_orders :
      (Side → ℕ → Order)
      → (ℕ → Depth)
      → (ℕ → Option (List Transaction))
      → Option (List ℕ)
      → Option (List ℕ)
      → Option (List ℕ)
      → World
      → Option (Engine World)
  load_old_orders orders depths old stock_ids asks bids w = do
    stocks ← stock_ids
    ask_ids ← asks
    bid_ids ← bids
    let e = new_books orders depths old stocks (record { order_books = λ j. none; world = w })
    e' ← load_orders orders ask ask_ids e
    load_orders orders bid bid_ids e'

module _ (x : Exchange) where
  -- AddAskOrder and AddBidOrder
  unfoldable pub add : Side → ℕ → ℕ → Engine x.World → Option (Engine x.World)
  add s stock i = on_book stock (submit x s i)

  -- StartStockMatching of every book; the goroutines run in some order.
  unfoldable pub start_all : List ℕ → Engine x.World → Option (Engine x.World)
  start_all [] e = some e
  start_all (stock ∷ stocks) e = on_book stock (start_stock_matching x) e >>= start_all stocks

  unfoldable pub new_matching_engine :
      (Side → ℕ → Order)
      → (ℕ → Depth)
      → (ℕ → Option (List Transaction))
      → Option (List ℕ)
      → Option (List ℕ)
      → Option (List ℕ)
      → List ℕ
      → x.World
      → Option (Engine x.World)
  new_matching_engine orders depths old stock_ids asks bids started w =
      load_old_orders orders depths old stock_ids asks bids w >>= start_all started
