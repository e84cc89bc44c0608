-- ===== src/Account/FillCases.antt =====
-- The three things that a run of PerformOrderFillTransaction can come to, as a data type.
use dalal_street_server.Base.{ℕ, ◌≡◌, ◌≢◌, true, false, none, some, List}
use dalal_street_server.Base.Word.{is_negative}
use dalal_street_server.Order.{unfulfilled}
use dalal_street_server.Book.State.{done, undone}
use dalal_street_server.Account.State.{Server}
use dalal_street_server.Account.Tax.{tax_for_asking_user, tax_for_bidding_user}
use dalal_street_server.Account.Close.{share, refunded}
use dalal_street_server.Account.Fill.{
  Parties, Terms, Result, cash_left, fill_order, status_of, trade,
}

-- The users and orders `p` as they were in `old`, except for the time of the bid's last update.
pub record IsUntouched (old p : Parties) : Type 0 where
  pub asker_same : p.asking_user ≡ old.asking_user
  pub bidder_same : p.bidding_user ≡ old.bidding_user
  pub ask_same : p.ask_order ≡ old.ask_order
  pub bid_updated : (at : List ℕ) × (p.bid_order ≡ record old.bid_order { updated_at = at })

module _ (s : Server) where
  -- The bid is closed, and the bidder has the part of its reserved cash for its unfulfilled stocks.
  pub record IsDropped (old p : Parties) : Type 0 where
    pub asker_same : p.asking_user ≡ old.asking_user
    pub ask_same : p.ask_order ≡ old.ask_order
    pub bidder_refunded :
        (w : s.World) × (cash : ℕ) × (s.reserved w old.bid_order.id ≡ some cash)
        × (p.bidding_user
            ≡ refunded
                (share s cash (unfulfilled old.bid_order) old.bid_order.stock_quantity)
                old.bidding_user)
    pub bid_closed :
        (at : List ℕ) × (p.bid_order ≡ record old.bid_order { is_closed = true; updated_at = at })

  -- The trade `p` of the terms `t` with the users after their taxes, each computed from the
  -- database at its time.
  abbrev pub IsCharged : Terms → Parties → Parties → Type 0
  IsCharged t p p' =
      (w : s.World) × (w1 : s.World) × (p' ≡ record p {
        asking_user =
            (tax_for_asking_user s w p.ask_order.stock_id t.quantity t.price p.asking_user).2;
        bidding_user =
            (tax_for_bidding_user s w1 p.bid_order.stock_id t.quantity t.price p.bidding_user).2;
      })

  -- The terms of a trade with the cash reserved for the whole bid.
  abbrev pub terms_of : Parties → ℕ → ℕ → ℕ → Terms
  terms_of p price quantity cash = record {
    price = price;
    quantity = quantity;
    reserved = share s cash quantity p.bid_order.stock_quantity;
  }

  pub data FillOutcome (old : Parties) (price quantity : ℕ) : Result s.World → Type 0 where
    nothing :
        {r : Result s.World}
        → r.transaction ≡ none
        → r.bid_status ≢ done
        → r.ask_status ≢ done
        → IsUntouched old r.parties
        → FillOutcome old price quantity r
    dropped :
        {r : Result s.World}
        → r.transaction ≡ none
        → r.bid_status ≡ done
        → r.ask_status ≡ undone
        → IsDropped old r.parties
        → FillOutcome old price quantity r
    traded :
        {r : Result s.World} (w : s.World) (cash : ℕ)
        → r.transaction ≢ none
        → s.reserved w old.bid_order.id ≡ some cash
        → is_negative (cash_left (terms_of old price quantity cash) old.bidding_user) ≡ false
        → IsCharged
            (terms_of old price quantity cash)
            (trade s (terms_of old price quantity cash) old)
            r.parties
        → r.ask_status ≡ status_of (fill_order quantity old.ask_order)
        → r.bid_status ≡ status_of (fill_order quantity old.bid_order)
        → FillOutcome old price quantity r
