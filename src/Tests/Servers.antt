-- ===== src/Tests/Servers.antt =====
-- A small server for the tests: floating point on whole numbers, a stock, a seller and a buyer.
use dalal_street_server.Base.{
  ℕ, suc, refl, ◌+◌, ◌-◌, ◌*◌, ◌/◌, Bool, true, false, none, some, [], ◌∷◌, ltb, leb, ◌==◌,
  if◌then◌else◌,
}
use dalal_street_server.Stock.{Stock}
use dalal_street_server.Account.Yields.{ends}
use dalal_street_server.Account.Success.{IsReliable}
use dalal_street_server.Account.State.{User, Floats, Server}

-- Floating point on whole numbers, of which the small ones are exact.
abbrev pub floats : Floats
floats = record {
  Float = ℕ;
  of_uint = λ n. n;
  of_int = λ n. n;
  to_uint = λ x. x;
  to_int = λ x. x;
  plus = λ x y. x + y;
  minus = λ x y. x - y;
  times = λ x y. x * y;
  over = λ x y. x / y;
  min = λ x y. if ltb x y then x else y;
  max = λ x y. if ltb x y then y else x;
  equal = λ x y. x == y;
  positive = λ x. ltb 0 x;
  less = λ x y. ltb x y;
  at_most = λ x y. leb x y;
  negate = λ x. 0;
  ratio = λ m n. m / n;
}

abbrev pub listed : Stock ℕ
listed = record {
  id = 1;
  short_name = [];
  full_name = [];
  description = [];
  current_price = 100;
  day_high = 120;
  day_low = 80;
  all_time_high = 150;
  all_time_low = 50;
  stocks_in_exchange = 200;
  stocks_in_market = 100;
  previous_day_close = 95;
  up_or_down = true;
  last_trade_price = 100;
  real_avg_price = 100;
  created_at = [];
  updated_at = [];
  gives_dividends = false;
  is_bankrupt = false;
  opening = 100;
  high = 110;
  low = 90;
  volume = 5;
}

abbrev pub seller : User
seller = record {
  id = 7;
  cash = 500;
  reserved_cash = 0;
  total = 0;
  is_blocked = false;
  block_count = 0;
}

abbrev pub buyer : User
buyer = record {
  id = 5;
  cash = 100;
  reserved_cash = 1000;
  total = 0;
  is_blocked = false;
  block_count = 0;
}

-- A server whose world is the last id given; every bid has reserved 1000. The flag says whether
-- commits succeed.
abbrev pub server : Bool → Server
server commits = record {
  floats = floats;
  World = ℕ;
  clock = λ w. 50 ∷ [];
  begin = λ w. w;
  save = λ w row. (suc w, some (suc w));
  commit = λ w. (w, commits);
  rollback = λ w. w;
  reserved = λ w id. some 1000;
  find_summary = λ w user stock. none;
  lock = λ w user. true;
  find_user = λ w id. if id == 7 then some seller else none;
  remember_ask = λ w id. w;
  remember_bid = λ w id. w;
  forget_ask = λ w id. w;
  forget_bid = λ w id. w;
  trade_stock = λ w stock price quantity. w;
  stock = λ w id. listed;
  stock_count = λ w user stock. some 30;
  lendable = λ w stock. some 100;
  lent = λ w stock user. some 0;
  stock_rows = λ w. some (listed ∷ []);
}

pub server-IsReliable : IsReliable (server true)
server-IsReliable = record { saves = λ w row. ends tt; commits = λ w. refl }
