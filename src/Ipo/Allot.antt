-- ===== src/Ipo/Allot.antt =====
-- AllowIpoBidding and AllotSlots.
use dalal_street_server.Base.{
  ℕ, ◌*◌, ◌/◌, ◌%◌, ◌^◌, Bool, true, false, ◌&&◌, Option, none, some, List, [], ◌∷◌, length,
  if◌then◌else◌, ◌>>=◌,
}
use dalal_street_server.Base.Word.{mul64, neg64}
use dalal_street_server.Stock.{Stock}
use dalal_street_server.Stock.Floor.{Floor}
use dalal_street_server.Stock.Day.{load_stocks}
use dalal_street_server.Account.State.{Server, stock_row, ipo_allotment, get_transaction_ref}
use dalal_street_server.Account.Tx.{Tx, committed}
use dalal_street_server.Account.Holding.{Holding, set_world}
use dalal_street_server.Ipo.{
  IpoStock, IpoBid, IpoStore, IpoError, not_biddable, already_open, not_found, save_failed,
}
use dalal_street_server.Ipo.Funds.{change_user, save_slot_tx, spent, returned}

module _ (s : Server) (store : IpoStore s.World s.floats.Float) where
  -- The IPO saved with its flag; the error is one of the database.
  unfoldable pub save_flag : Bool → IpoStock → s.World → s.World × Option (Unit {0})
  save_flag is_biddable ipo w =
      store.save_ipo w (record ipo { is_biddable = is_biddable; updated_at = s.clock w })

  unfoldable pub save_error : s.World × Option (Unit {0}) → Option IpoError × s.World
  save_error (w, none) = (some save_failed, w)
  save_error (w, some _) = (none, w)

  unfoldable pub allow_ipo_bidding : ℕ → s.World → Option IpoError × s.World
  allow_ipo_bidding ipo_id w = elim (store.find_ipo w ipo_id) [
    | none ↦ (some not_found, w)
    | some ipo ↦
        if ipo.is_biddable then (some already_open, w) else save_error (save_flag true ipo w)
  ]

  -- The price by the ratio of the number of bids to the number of slots.
  unfoldable pub listing_price : s.floats.Float → ℕ → ℕ
  listing_price ratio price =
      let f = s.floats in
      if f.at_most ratio (f.ratio 105 100) && f.at_most (f.ratio 95 100) ratio
      then price
      else if f.less ratio (f.ratio 120 100) && f.less (f.ratio 105 100) ratio
      then mul64 price 105 / 100
      else if f.less ratio (f.ratio 95 100) && f.less (f.ratio 80 100) ratio
      then mul64 price 95 / 100
      else if f.at_most (f.ratio 120 100) ratio
      then mul64 price 110 / 100
      else mul64 price 90 / 100

  abbrev pub new_stock : IpoStock → ℕ → List ℕ → Stock s.floats.Float
  new_stock ipo price now = record {
    id = 0;
    short_name = ipo.short_name;
    full_name = ipo.full_name;
    description = ipo.description;
    current_price = price;
    day_high = price;
    day_low = price;
    all_time_high = price;
    all_time_low = price;
    stocks_in_exchange = 0;
    stocks_in_market = 0;
    previous_day_close = price;
    up_or_down = true;
    last_trade_price = price;
    real_avg_price = s.floats.of_uint price;
    created_at = now;
    updated_at = now;
    gives_dividends = false;
    is_bankrupt = false;
    opening = 0;
    high = 0;
    low = 0;
    volume = 0;
  }

  abbrev pub SlotResult : Type 0
  SlotResult = Option (Option (Unit {0}) × Holding s.World)

  -- `cost` is an int64 pattern, as the price of a slot is.
  unfoldable pub allot_ipo_slot_to_user : ℕ → ℕ → ℕ → ℕ → IpoBid → Holding s.World → SlotResult
  allot_ipo_slot_to_user stock_id stocks_per_slot cost price bid h =
      let now = s.clock h.users.world in
      let t =
        get_transaction_ref now bid.user_id stock_id ipo_allotment 0
          (bid.slot_quantity * stocks_per_slot % 2 ^ 32) price (neg64 cost) 0 in
      let closed : IpoBid = record bid {
        is_fulfilled = true;
        is_closed = true;
        updated_at = now;
      } in
      change_user s bid.user_id (spent cost) (save_slot_tx s store closed t (committed s))
        s.rollback h

  -- A commit that fails is rolled back here, where a save that fails is not.
  unfoldable pub committed_or_undone : Tx s.World (Unit {0})
  committed_or_undone w =
      let (w', ok) = s.commit w in if ok then (w', some tt) else (s.rollback w', none)

  unfoldable pub refund_ipo_slot_to_user : ℕ → ℕ → IpoBid → Holding s.World → SlotResult
  refund_ipo_slot_to_user stock_id cost bid h =
      let now = s.clock h.users.world in
      let t = get_transaction_ref now bid.user_id stock_id ipo_allotment 0 0 0 (neg64 cost) cost in
      let closed : IpoBid = record bid { is_closed = true; updated_at = now } in
      change_user s bid.user_id (returned cost) (save_slot_tx s store closed t committed_or_undone)
        (λ w. w) h

  -- A loop over bids, up to the first error.
  unfoldable pub each_bid :
      (IpoBid → Holding s.World → SlotResult) → List IpoBid → Holding s.World → SlotResult
  each_bid body [] h = some (some tt, h)
  each_bid body (bid ∷ bids) h = body bid h >>= λ (done, h').
      let rest = each_bid body bids h' in elim done [ none ↦ some (none, h') | some _ ↦ rest ]

  -- A query's result, or the error of the query.
  unfoldable pub for_bids :
      (IpoBid → Holding s.World → SlotResult) → Option (List IpoBid) → Holding s.World → SlotResult
  for_bids body none h = some (none, h)
  for_bids body (some bids) h = each_bid body bids h

  unfoldable pub allot_bids : ℕ → ℕ → IpoStock → List IpoBid → Holding s.World → SlotResult
  allot_bids stock_id price ipo bids h =
      let f = s.floats in
      let ratio = f.over (f.of_uint (length bids)) (f.of_uint ipo.slot_quantity) in
      let allot = allot_ipo_slot_to_user stock_id ipo.stocks_per_slot ipo.slot_price price in
      let chosen = store.random_bids h.users.world ipo.id ipo.slot_quantity in
      if f.at_most ratio (f.ratio 100 100)
      then each_bid allot bids h
      else for_bids allot chosen h >>= λ (done, h'). elim done [
        | none ↦ some (none, h')
        | some _ ↦
            for_bids (refund_ipo_slot_to_user stock_id ipo.slot_price)
              (store.unfulfilled_bids h'.users.world ipo.id) h'
      ]

  -- The stocks that are counted as in the market.
  unfoldable pub stocks_in_market : IpoStock → List IpoBid → ℕ
  stocks_in_market ipo bids =
      let f = s.floats in
      let ratio = f.over (f.of_uint (length bids)) (f.of_uint ipo.slot_quantity) in
      if f.at_most ratio (f.ratio 100 100)
      then length bids % 2 ^ 32 * ipo.stocks_per_slot % 2 ^ 32
      else ipo.slot_quantity * ipo.stocks_per_slot % 2 ^ 32

  abbrev pub Allotted : Type 0
  Allotted = Option (Option IpoError × Holding s.World × Floor s)

  -- The last save of the new stock, and LoadStocks, whose error is not looked at.
  unfoldable pub end_allot : Stock s.floats.Float → Holding s.World → Floor s → Allotted
  end_allot stock h f =
      let (w, saved) =
        s.save h.users.world (stock_row (record stock { updated_at = s.clock h.users.world })) in
      let h' = set_world s w h in
      let f' : Floor s = record f { world = w } in
      elim saved [
        | none ↦ some (some save_failed, h', f')
        | some _ ↦ load_stocks s f' >>= λ r. some (none, set_world s r.1.world h', r.1)
      ]

  -- `stock` is the new stock.
  unfoldable pub allot_listed :
      Stock s.floats.Float → IpoStock → List IpoBid → Holding s.World → Floor s → Allotted
  allot_listed stock ipo bids h f =
      allot_bids stock.id stock.current_price ipo bids h >>= λ (done, h'). elim done [
        | none ↦ some (some save_failed, h', record f { world = h'.users.world })
        | some _ ↦ end_allot (record stock { stocks_in_market = stocks_in_market ipo bids }) h' f
      ]

  -- From the query for the open bids on: the new stock is created first.
  unfoldable pub list_stock : IpoStock → Option (List IpoBid) → Holding s.World → Floor s → Allotted
  list_stock ipo none h f = some (some save_failed, h, f)
  list_stock ipo (some bids) h f =
      let fl = s.floats in
      let ratio = fl.over (fl.of_uint (length bids)) (fl.of_uint ipo.slot_quantity) in
      let price = listing_price ratio ipo.stock_price in
      let stock = new_stock ipo price (s.clock h.users.world) in
      let (w, created) = store.create_stock h.users.world stock in
      let h' = set_world s w h in
      elim created [
        | none ↦ some (some save_failed, h', f)
        | some id ↦ allot_listed (record stock { id = id }) ipo bids h' f
      ]

  unfoldable pub close_bidding : IpoStock → Holding s.World → Floor s → Allotted
  close_bidding ipo h f =
      let (w, saved) = save_flag false ipo h.users.world in
      let h' = set_world s w h in
      if ipo.is_biddable
      then elim saved [
        | none ↦ some (some save_failed, h', f)
        | some _ ↦ list_stock ipo (store.open_bids w ipo.id) h' f
      ]
      else some (some not_biddable, h, f)

  unfoldable pub allot_slots : ℕ → Holding s.World → Floor s → Allotted
  allot_slots ipo_id h f = elim (store.find_ipo h.users.world ipo_id) [
    | none ↦ some (some not_found, h, f)
    | some ipo ↦ close_bidding ipo h f
  ]
