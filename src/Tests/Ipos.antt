-- ===== src/Tests/Ipos.antt =====
-- Bids for the slots of an initial public offering on a small case.
use dalal_street_server.Base.{
  ℕ, ◌≡◌, refl, ◌==◌, ◌<◌, true, false, Option, none, some, [], ◌∷◌, Returns, if◌then◌else◌, arith,
  ◌>>=◌, suc, split_if,
}
use dalal_street_server.Base.Word.{add64, sub64, mul64, neg64, word_mod}
use dalal_street_server.Stock.Floor.{Floor, lock}
use dalal_street_server.Stock.Day.{load_stocks, load_found}
use dalal_street_server.Account.State.{User, Server, get_transaction_ref, ipo_allotment}
use dalal_street_server.Account.Users.{get_user_exclusively, find_user, load_user}
use dalal_street_server.Account.Tx.{◌>>=◌ as bind_tx, pure, committed}
use dalal_street_server.Account.Yields.{ends}
use dalal_street_server.Account.Success.{IsReliable}
use dalal_street_server.Account.Holding.{Holding, take_user, no_locks}
use dalal_street_server.Tests.Servers.{server, seller}
use dalal_street_server.Ipo.{IpoStock, IpoBid, IpoStore}
use dalal_street_server.Ipo.Funds.{
  end_change, change_taken, change_user, found, save_new_tx, save_cancelled_tx, save_slot_tx,
  save_new_ipo_bid_transaction, save_cancelled_ipo_bid_transaction,
}
use dalal_street_server.Ipo.Bid.{
  created, zero_ipo, new_ipo_bid, or_zero, afford, end_create, create_afforded, create_known,
  create_ipo_bid, end_cancel, cancel_found, cancel_ipo_bid,
}
use dalal_street_server.Ipo.Allot.{
  save_flag, listing_price, allot_ipo_slot_to_user, each_bid, allot_bids, stocks_in_market,
  end_allot, allot_listed, list_stock, close_bidding, allot_slots,
}
use dalal_street_server.Ipo.Outcome.{CreateOutcome, create_ipo_bid-CreateOutcome}
use dalal_street_server.Ipo.Conserve.{
  SameFunds, create, cancel_bid, start, step, IpoSteps-SameFunds,
}
use dalal_street_server.Ipo.Allotted.{charged, each_bid-charged}

abbrev ipo : IpoStock
ipo = record zero_ipo {
  id = 3;
  is_biddable = true;
  slot_price = 200;
  stock_price = 20;
  slot_quantity = 2;
  stocks_per_slot = 10;
}

abbrev bid : IpoBid
bid = new_ipo_bid 7 3 1 ipo []

abbrev store : IpoStore ℕ ℕ
store = record {
  find_ipo = λ w id. if id == 3 then some ipo else none;
  save_ipo = λ w i. (w, some tt);
  find_bid = λ w id. some bid;
  has_open_bid = λ w user id. false;
  create_bid = λ w b. (suc w, some (suc w));
  save_bid = λ w b. (w, some tt);
  insert_transaction = λ w user reserved total now. (w, some tt);
  find_transaction =
      λ w user total. some (get_transaction_ref [] user 0 ipo_allotment 0 0 0 0 total);
  open_bids = λ w id. some (bid ∷ []);
  random_bids = λ w id n. some [];
  unfulfilled_bids = λ w id. some [];
  create_stock = λ w stock. (w, some 9);
}

-- The server of the tests, where every id has a user with some cash.
abbrev with_cash : ℕ → Server
with_cash n = record (server true) {
  find_user = λ w id. some (record seller { id = id; cash = n });
}

abbrev nobody : (n : ℕ) → Holding ℕ
nobody n = no_locks (with_cash n) (record { user_locks = λ j. none; world = 0 })

abbrev somebody : (n : ℕ) → Holding ℕ
somebody n = no_locks (with_cash n) (record {
  user_locks = λ j. if j == 7 then some (record seller { cash = n }) else none;
  world = 0;
})

small : (n w id : ℕ) → (or_zero (store.find_ipo w id)).slot_price < word_mod
unfolding or_zero
small n w id =
    split_if (λ o. (or_zero o).slot_price < word_mod) (id == 3) (λ _. omega arith)
      (λ _. omega arith)

-- With too little cash, the lock of the user is kept, and the next bid of the user waits forever.
bid_twice :
    (create_ipo_bid (with_cash 50) store 7 3 1 (nobody 50) >>= λ (r, h).
    create_ipo_bid (with_cash 50) store 7 3 1 h)
    ≡ none
unfolding create_ipo_bid create_known afford take_user get_user_exclusively find_user load_user
    or_zero
bid_twice = refl

create_ipo_bid-CreateOutcome_example :
    CreateOutcome
      (somebody 500).users.user_locks
      (somebody 500).held
      7
      200
      (create_ipo_bid (with_cash 500) store 7 3 1 (somebody 500))
unfolding or_zero
create_ipo_bid-CreateOutcome_example =
    create_ipo_bid-CreateOutcome (with_cash 500) store 7 3 1 (somebody 500) (omega arith)

abbrev holding_after : {X : Type 0} → Holding ℕ → Option (X × Holding ℕ) → Holding ℕ
holding_after h none = h
holding_after h (some (x, h')) = h'

-- A bid, then its cancellation.
abbrev after_bid : Holding ℕ
after_bid = holding_after (somebody 500) (create_ipo_bid (with_cash 500) store 7 3 1 (somebody 500))

abbrev after_cancel : Holding ℕ
after_cancel = holding_after after_bid (cancel_ipo_bid (with_cash 500) store 1 after_bid)

bid_made : create_ipo_bid (with_cash 500) store 7 3 1 (somebody 500) ≡ some (created 1, after_bid)
unfolding create_ipo_bid create_known afford create_afforded end_create take_user
    get_user_exclusively find_user load_user or_zero save_new_ipo_bid_transaction change_user
    change_taken end_change save_new_tx found bind_tx pure committed mul64 add64 sub64
bid_made = refl

bid_cancelled : cancel_ipo_bid (with_cash 500) store 1 after_bid ≡ some (none, after_cancel)
unfolding create_ipo_bid create_known afford create_afforded end_create take_user
    get_user_exclusively find_user load_user or_zero save_new_ipo_bid_transaction change_user
    change_taken end_change save_new_tx found bind_tx pure committed mul64 add64 sub64
    cancel_ipo_bid cancel_found end_cancel save_cancelled_ipo_bid_transaction save_cancelled_tx
bid_cancelled = refl

user_restored : after_cancel.users.user_locks 7 ≡ some (record seller { cash = 500 })
unfolding create_ipo_bid create_known afford create_afforded end_create take_user
    get_user_exclusively find_user load_user or_zero save_new_ipo_bid_transaction change_user
    change_taken end_change save_new_tx found bind_tx pure committed mul64 add64 sub64
    cancel_ipo_bid cancel_found end_cancel save_cancelled_ipo_bid_transaction save_cancelled_tx
user_restored = refl

IpoSteps-SameFunds_example : SameFunds (somebody 500).users.user_locks after_cancel
IpoSteps-SameFunds_example =
    IpoSteps-SameFunds (with_cash 500) store (small 500)
      (step (step start (create 7 3 1 (created 1) bid_made)) (cancel_bid 1 none bid_cancelled))

with_cash-IsReliable : IsReliable (with_cash 500)
with_cash-IsReliable = record { saves = λ w row. ends tt; commits = λ w. refl }

each_bid-charged_example :
    Returns
      (λ (done, h').
        (done ≡ some tt)
        × ((j : ℕ) → h'.held j ≡ false)
        × ((j : ℕ) (v : User)
            → (somebody 500).users.user_locks j ≡ some v
            → h'.users.user_locks j ≡ some (charged 200 (bid ∷ []) j v)))
      (each_bid
        (with_cash 500)
        store
        (allot_ipo_slot_to_user (with_cash 500) store 9 10 200 20)
        (bid ∷ [])
        (somebody 500))
each_bid-charged_example =
    each_bid-charged (with_cash 500) store with_cash-IsReliable (λ w b. ends tt) 9 10 200 20
      (bid ∷ []) (somebody 500) (λ j. refl) (λ w. ((_, refl), tt))

-- One bid for two slots: the new stock is listed below its price, and the reserved cash pays a slot.
abbrev floor : Floor (with_cash 500)
floor = record { all_stocks = λ id. none; average = λ id. 0; locked = false; world = 0 }

slot_allotted :
    (allot_slots (with_cash 500) store 3 after_bid floor >>= λ (e, h, f).
    h.users.user_locks 7 >>= λ u. some u.reserved_cash)
    ≡ some 0
unfolding create_ipo_bid create_known afford create_afforded end_create take_user
    get_user_exclusively find_user load_user or_zero save_new_ipo_bid_transaction change_user
    change_taken end_change save_new_tx found bind_tx pure committed mul64 add64 sub64 neg64
    allot_slots close_bidding save_flag list_stock listing_price allot_listed allot_bids each_bid
    allot_ipo_slot_to_user save_slot_tx get_transaction_ref stocks_in_market end_allot load_stocks
    load_found lock
slot_allotted = refl
