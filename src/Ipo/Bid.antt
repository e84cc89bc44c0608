-- ===== src/Ipo/Bid.antt =====
-- CreateIpoBid and CancelIpoBid.
use dalal_street_server.Base.{
  ℕ, true, false, Option, none, some, List, [], ltb, ◌==◌, if◌then◌else◌, ◌>>=◌,
}
use dalal_street_server.Base.Word.{mul64}
use dalal_street_server.Account.State.{User, Server}
use dalal_street_server.Account.Holding.{Holding, take_user, release}
use dalal_street_server.Ipo.{
  IpoStock, IpoBid, IpoStore, IpoError, stock_limit_exceeded, no_user, not_enough_cash,
  not_biddable, already_closed, not_found, save_failed,
}
use dalal_street_server.Ipo.Funds.{save_new_ipo_bid_transaction, save_cancelled_ipo_bid_transaction}

pub data Created : Type 0 where
  refused : IpoError → Created
  created : ℕ → Created

-- `&IpoStock{}`, which stays as it is if the query fails.
abbrev pub zero_ipo : IpoStock
zero_ipo = record {
  id = 0;
  short_name = [];
  full_name = [];
  description = [];
  created_at = [];
  updated_at = [];
  is_biddable = false;
  slot_price = 0;
  stock_price = 0;
  slot_quantity = 0;
  stocks_per_slot = 0;
}

unfoldable pub or_zero : Option IpoStock → IpoStock
or_zero none = zero_ipo
or_zero (some ipo) = ipo

abbrev pub new_ipo_bid : ℕ → ℕ → ℕ → IpoStock → List ℕ → IpoBid
new_ipo_bid user_id ipo_id slots ipo now = record {
  id = 0;
  user_id = user_id;
  ipo_stock_id = ipo_id;
  slot_price = ipo.slot_price;
  slot_quantity = slots;
  is_fulfilled = false;
  is_closed = false;
  created_at = now;
  updated_at = now;
}

module _ (s : Server) (store : IpoStore s.World s.floats.Float) where
  -- Where the cash does not suffice, the user's lock is kept.
  unfoldable pub afford :
      ℕ → IpoStock → Option User × Holding s.World → Option IpoError × Holding s.World
  afford user_id ipo (none, h) = (some no_user, h)
  afford user_id ipo (some user, h) =
      if ltb user.cash ipo.slot_price
      then (some not_enough_cash, h)
      else (none, release s user_id h)

  unfoldable pub end_create : Option ℕ × Holding s.World → Created × Holding s.World
  end_create (none, h) = (refused save_failed, h)
  end_create (some id, h) = (created id, h)

  unfoldable pub create_afforded :
      ℕ → ℕ → ℕ → IpoStock → Holding s.World → Option (Created × Holding s.World)
  create_afforded user_id ipo_id slots ipo h =
      let saved =
        save_new_ipo_bid_transaction s store
          (new_ipo_bid user_id ipo_id slots ipo (s.clock h.users.world)) user_id
          (mul64 slots ipo.slot_price) h in
      if ipo.is_biddable
      then if store.has_open_bid h.users.world user_id ipo_id
        then some (refused stock_limit_exceeded, h)
        else (saved >>= λ r. some (end_create r))
      else some (refused not_biddable, h)

  unfoldable pub create_known :
      ℕ → ℕ → ℕ → IpoStock → Holding s.World → Option (Created × Holding s.World)
  create_known user_id ipo_id slots ipo h = take_user s user_id h >>= λ found.
      let (error, h') = afford user_id ipo found in
      elim error [
        | some e ↦ some (refused e, h')
        | none ↦ create_afforded user_id ipo_id slots ipo h'
      ]

  unfoldable pub create_ipo_bid : ℕ → ℕ → ℕ → Holding s.World → Option (Created × Holding s.World)
  create_ipo_bid user_id ipo_id slots h =
      if slots == 1
      then create_known user_id ipo_id slots (or_zero (store.find_ipo h.users.world ipo_id)) h
      else some (refused stock_limit_exceeded, h)

  abbrev pub BidCancelled : Type 0
  BidCancelled = Option (Option IpoError × Holding s.World)

  unfoldable pub end_cancel :
      Option (Unit {0}) × Holding s.World → Option IpoError × Holding s.World
  end_cancel (none, h) = (some save_failed, h)
  end_cancel (some _, h) = (none, h)

  unfoldable pub cancel_found : IpoBid → Holding s.World → BidCancelled
  cancel_found bid h =
      let ipo = or_zero (store.find_ipo h.users.world bid.ipo_stock_id) in
      let closed : IpoBid = record bid { is_closed = true; updated_at = s.clock h.users.world } in
      let saved =
        save_cancelled_ipo_bid_transaction s store closed (mul64 bid.slot_quantity bid.slot_price)
          h in
      if bid.is_closed
      then some (some already_closed, h)
      else if ipo.is_biddable
      then (saved >>= λ r. some (end_cancel r))
      else some (some not_biddable, h)

  unfoldable pub cancel_ipo_bid : ℕ → Holding s.World → BidCancelled
  cancel_ipo_bid bid_id h = elim (store.find_bid h.users.world bid_id) [
    | none ↦ some (some not_found, h)
    | some bid ↦ cancel_found bid h
  ]
