-- ===== src/Account/Outcome.antt =====
-- What PerformOrderFillTransaction can come to.
use dalal_street_server.Base.{
  ℕ, ◌≡◌, ◌≢◌, refl, ap, Bool, true, false, not, ◌&&◌, ◌||◌, Option, none, some, List,
  if◌then◌else◌, split_if, arith,
}
use dalal_street_server.Base.Word.{is_negative}
use dalal_street_server.Order.{unfulfilled}
use dalal_street_server.Book.State.{bid, FillStatus, already_closed, done, undone}
use dalal_street_server.Account.State.{User, Server}
use dalal_street_server.Account.Yields.{
  Yields, stopped, yielded, bind-Yields, get-Yields, pure-Yields,
}
use dalal_street_server.Account.Close.{
  share, close, closed_now, CancelOutcome, unread, freed, save_bid-CancelOutcome, after_save,
  refunded,
}
use dalal_street_server.Account.Fill.{
  Parties, Terms, Result, cash_left, fill_order, revert, status_of, trade, end_drop, commit_drop,
  cancel_drop, drop_bid, save_trade, end_trade, settle_fill, start_fill,
  perform_order_fill_transaction, unchanged,
}
use dalal_street_server.Account.FillCases.{
  IsCharged, terms_of, FillOutcome, nothing, dropped, traded,
}

module _ (s : Server) where
  pub save_trade-IsCharged :
      (t : Terms) (old p : Parties) (w : s.World)
      → Yields (IsCharged s t p) (save_trade s t old p w)
  unfolding save_trade
  save_trade-IsCharged t old p w = get-Yields _ _ _ (
      bind-Yields _ _ _ λ _ w1. get-Yields _ _ _ (
        bind-Yields _ _ _ λ _ _. bind-Yields _ _ _ λ _ _. bind-Yields _ _ _ λ _ _.
          bind-Yields _ _ _ λ _ _. bind-Yields _ _ _ λ _ _. bind-Yields _ _ _ λ _ _.
            bind-Yields _ _ _ λ _ _. bind-Yields _ _ _ λ _ _. bind-Yields _ _ _ λ _ _.
              bind-Yields _ _ _ λ _ _. bind-Yields _ _ _ λ _ _. pure-Yields _ _ (w, w1, refl)))

  module _ (old : Parties) (price quantity : ℕ) where
    abbrev Outcome : Result s.World → Type 0
    Outcome = FillOutcome s old price quantity

    undone_done : undone ≢ done
    undone_done = ground arith

    end_drop-Outcome :
        (w0 : s.World) (cash : ℕ) (at : List ℕ) (r : s.World × Option (Unit {0}))
        → s.reserved w0 old.bid_order.id ≡ some cash
        → Outcome (
            end_drop s old
              (record old {
                bidding_user =
                    refunded
                      (share s cash (unfulfilled old.bid_order) old.bid_order.stock_quantity)
                      old.bidding_user;
                bid_order = record old.bid_order { is_closed = true; updated_at = at };
              })
              r)
    unfolding end_drop revert
    end_drop-Outcome w0 cash at (w, none) e = nothing refl undone_done undone_done (record {
      asker_same = refl;
      bidder_same = refl;
      ask_same = refl;
      bid_updated = (at, refl);
    })
    end_drop-Outcome w0 cash at (w, some u) e = dropped refl refl refl (record {
      asker_same = refl;
      ask_same = refl;
      bidder_refunded = (w0, cash, e, refl);
      bid_closed = (at, refl);
    })

    commit_drop-Outcome :
        (at : List ℕ) (r : s.World × User × Option (Unit {0}))
        → CancelOutcome s
            (record old.bid_order { is_closed = true; updated_at = at })
            old.bidding_user
            r
        → Outcome (
            commit_drop s old
              (record old {
                bid_order = record old.bid_order { is_closed = true; updated_at = at };
              })
              r)
    unfolding commit_drop revert unfulfilled
    commit_drop-Outcome at _ unread = nothing refl undone_done undone_done (record {
      asker_same = refl;
      bidder_same = refl;
      ask_same = refl;
      bid_updated = (at, refl);
    })
    commit_drop-Outcome at _ (freed w0 cash none e) = nothing refl undone_done undone_done (record {
      asker_same = refl;
      bidder_same = refl;
      ask_same = refl;
      bid_updated = (at, refl);
    })
    commit_drop-Outcome at _ (freed w0 cash (some u) e) = end_drop-Outcome w0 cash at _ e

    cancel_drop-Outcome :
        (w : s.World) (r : s.World × Option ℕ)
        → Outcome (cancel_drop s old (after_save s bid (closed_now s w old.bid_order) r))
    unfolding cancel_drop after_save revert
    cancel_drop-Outcome w (w', none) = nothing refl undone_done undone_done (record {
      asker_same = refl;
      bidder_same = refl;
      ask_same = refl;
      bid_updated = (s.clock w, refl);
    })
    cancel_drop-Outcome w (w', some id) =
        commit_drop-Outcome (s.clock w) _ (save_bid-CancelOutcome s _ old.bidding_user _)

    drop_bid-Outcome : (w : s.World) → Outcome (drop_bid s old w)
    unfolding drop_bid close cancel_drop revert
    drop_bid-Outcome w =
        split_if (λ r. Outcome (cancel_drop s old r)) old.bid_order.is_closed
          (λ _. nothing refl undone_done undone_done (record {
            asker_same = refl;
            bidder_same = refl;
            ask_same = refl;
            bid_updated = (_, refl);
          }))
          (λ _. cancel_drop-Outcome w _)

    module _ (w0 : s.World) (cash : ℕ) (read : s.reserved w0 old.bid_order.id ≡ some cash) where
      abbrev t : Terms
      t = terms_of s old price quantity cash

      end_trade-Outcome :
          (w : s.World) (r : s.World × Option Parties)
          → is_negative (cash_left t old.bidding_user) ≡ false
          → Yields (IsCharged s t (trade s t old)) r
          → Outcome (end_trade s t old w r)
      unfolding end_trade revert trade fill_order
      end_trade-Outcome w _ e stopped = nothing refl undone_done undone_done (record {
        asker_same = refl;
        bidder_same = refl;
        ask_same = refl;
        bid_updated = (_, refl);
      })
      end_trade-Outcome w _ e (yielded c) =
          traded w0 cash (ground arith) read e c (ap (λ (p : Parties). status_of p.ask_order) c.2)
            (ap (λ (p : Parties). status_of p.bid_order) c.2)

      settle_fill-Outcome : (w : s.World) → Outcome (settle_fill s t old w)
      unfolding settle_fill revert trade fill_order
      settle_fill-Outcome w =
          split_if Outcome (is_negative (cash_left t old.bidding_user)) (λ _. drop_bid-Outcome w)
            (λ e.
              end_trade-Outcome w (save_trade s t old (trade s t old) w) e
                (save_trade-IsCharged t old (trade s t old) w))

    start_fill-Outcome :
        (w : s.World) (cash : Option ℕ)
        → s.reserved w old.bid_order.id ≡ cash
        → Outcome (start_fill s cash old price quantity w)
    unfolding start_fill
    start_fill-Outcome w none e =
        nothing refl undone_done undone_done (record {
          asker_same = refl;
          bidder_same = refl;
          ask_same = refl;
          bid_updated = (_, refl);
        })
    start_fill-Outcome w (some cash) e = settle_fill-Outcome w cash e w

    open_done : (closed : Bool) → (if closed then already_closed else undone) ≢ done
    open_done true = ground arith
    open_done false = ground arith

    unchanged-Outcome :
        (w : s.World) (a b : FillStatus) → a ≢ done → b ≢ done → Outcome (unchanged s old w a b)
    unchanged-Outcome w a b h k =
        nothing refl k h (record {
          asker_same = refl;
          bidder_same = refl;
          ask_same = refl;
          bid_updated = (_, refl);
        })

    -- Whatever fails, the fill of an ask and a bid does one of three things. It leaves both users
    -- and both orders as they were, but for the time of the bid's last update, returns no
    -- transaction and reports neither order done. Or it closes the bid, gives the bidder the part
    -- of the bid's reserved cash for its unfulfilled stocks, returns no transaction and reports the
    -- bid done and the ask undone. Or the bidder can pay, and it fills both orders by the quantity,
    -- moves the cash of the trade and takes the taxes of both users, returns a transaction and
    -- reports an order done exactly when its fulfilled quantity is its whole quantity.
    pub perform_order_fill_transaction-FillOutcome :
        (w : s.World) → Outcome (perform_order_fill_transaction s old price quantity w)
    unfolding perform_order_fill_transaction
    perform_order_fill_transaction-FillOutcome w =
        split_if Outcome (not (s.lock w old.ask_order.user_id && s.lock w old.bid_order.user_id))
          (λ _. unchanged-Outcome w _ _ undone_done undone_done)
          (λ _.
            split_if Outcome (old.ask_order.is_closed || old.bid_order.is_closed)
              (λ _.
                unchanged-Outcome w _ _ (open_done old.ask_order.is_closed)
                  (open_done old.bid_order.is_closed))
              (λ _. start_fill-Outcome (s.begin w) _ refl))
