-- ===== src/Ipo.antt =====
-- models/Ipo.go and models/IpoBid.go: initial public offerings. The rows, and what the code uses of
-- the database.
pub mod Funds
pub mod Bid
pub mod Changed
pub mod Outcome
pub mod Cancel
pub mod Conserve
pub mod Allotted
pub mod Allot
use dalal_street_server.Base.{ℕ, Bool, Option, List}
use dalal_street_server.Stock.{Stock}
use dalal_street_server.Account.State.{Transaction}

pub record IpoStock : Type 0 where
  pub id : ℕ
  pub short_name : List ℕ
  pub full_name : List ℕ
  pub description : List ℕ
  pub created_at : List ℕ
  pub updated_at : List ℕ
  pub is_biddable : Bool
  pub slot_price : ℕ
  pub stock_price : ℕ
  pub slot_quantity : ℕ
  pub stocks_per_slot : ℕ

pub record IpoBid : Type 0 where
  pub id : ℕ
  pub user_id : ℕ
  pub ipo_stock_id : ℕ
  pub slot_price : ℕ
  pub slot_quantity : ℕ
  pub is_fulfilled : Bool
  pub is_closed : Bool
  pub created_at : List ℕ
  pub updated_at : List ℕ

-- `save_failed` stands for the errors of the database in a transaction.
pub data IpoError : Type 0 where
  stock_limit_exceeded no_user not_enough_cash not_biddable already_open already_closed : IpoError
  not_found save_failed : IpoError

-- The queries and statements: an IPO and a bid by id; whether a user has an open bid for an IPO; the
-- insertion of a transaction of a user without a stock, with its reserved total, total and time; the
-- first IPO transaction of a user with a total; the open bids for an IPO; a number of them chosen at
-- random; those that are not fulfilled. A save that fails gives none.
pub record IpoStore (World Float : Type 0) : Type 0 where
  pub find_ipo : World → ℕ → Option IpoStock
  pub save_ipo : World → IpoStock → World × Option (Unit {0})
  pub find_bid : World → ℕ → Option IpoBid
  pub has_open_bid : World → ℕ → ℕ → Bool
  pub create_bid : World → IpoBid → World × Option ℕ
  pub save_bid : World → IpoBid → World × Option (Unit {0})
  pub insert_transaction : World → ℕ → ℕ → ℕ → List ℕ → World × Option (Unit {0})
  pub find_transaction : World → ℕ → ℕ → Option Transaction
  pub open_bids : World → ℕ → Option (List IpoBid)
  pub random_bids : World → ℕ → ℕ → Option (List IpoBid)
  pub unfulfilled_bids : World → ℕ → Option (List IpoBid)
  pub create_stock : World → Stock Float → World × Option ℕ
