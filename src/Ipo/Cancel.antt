-- ===== src/Ipo/Cancel.antt =====
-- What the cancellation of a bid comes to, and the bid and its cancellation together.
use dalal_street_server.Base.{ℕ, ◌≡◌, refl, false, Option, none, some, split_if, ◌>>=◌}
use dalal_street_server.Base.Word.{mul64}
use dalal_street_server.Account.State.{User, Server}
use dalal_street_server.Account.Holding.{Holding}
use dalal_street_server.Ipo.{IpoBid, IpoStore, IpoError}
use dalal_street_server.Ipo.Funds.{returned, save_cancelled_ipo_bid_transaction}
use dalal_street_server.Ipo.Bid.{or_zero, end_cancel, cancel_found, cancel_ipo_bid}
use dalal_street_server.Ipo.Changed.{Changed, stuck, undone, changed, change_user-Changed}
use dalal_street_server.Account.Holding.Same.{SameLocks, SameUsers, OneChanged}

-- The price that a cancelled bid gives back.
abbrev pub bid_price : IpoBid → ℕ
bid_price bid = mul64 bid.slot_quantity bid.slot_price

module _ (s : Server) (store : IpoStore s.World s.floats.Float) (h : Holding s.World) where
  -- The cancellation does not return, refuses with users and locks as they were, or moves the price
  -- of the bid from the reserved cash of the bid's user to the cash.
  pub data CancelOutcome (bid_id : ℕ) : Option (Option IpoError × Holding s.World) → Type 0 where
    waits : CancelOutcome bid_id none
    declines :
        {e : IpoError} {h' : Holding s.World}
        → SameUsers h.users.user_locks h.held h'
        → SameLocks h.users.user_locks h.held h'
        → CancelOutcome bid_id (some (some e, h'))
    cancels :
        {h' : Holding s.World} (bid : IpoBid) (u : User)
        → store.find_bid h.users.world bid_id ≡ some bid
        → bid.is_closed ≡ false
        → OneChanged h.users.user_locks h.held bid.user_id (returned (bid_price bid)) u h'
        → SameLocks h.users.user_locks h.held h'
        → CancelOutcome bid_id (some (none, h'))

  module _ (bid_id : ℕ) where
    end_cancel-Outcome :
        (bid : IpoBid) (r : Option (Option (Unit {0}) × Holding s.World))
        → store.find_bid h.users.world bid_id ≡ some bid
        → bid.is_closed ≡ false
        → Changed h.users.user_locks h.held bid.user_id (returned (bid_price bid)) r
        → CancelOutcome bid_id (r >>= λ x. some (end_cancel s store x))
    unfolding end_cancel
    end_cancel-Outcome bid _ e is_open stuck = waits
    end_cancel-Outcome bid _ e is_open (undone same free) = declines same free
    end_cancel-Outcome bid _ e is_open (changed u one free) = cancels bid u e is_open one free

    loaded-CancelOutcome :
        (found : Option IpoBid)
        → store.find_bid h.users.world bid_id ≡ found
        → CancelOutcome bid_id (elim found [
          | none ↦ some (some IpoError.not_found, h)
          | some bid ↦ cancel_found s store bid h
        ])
    unfolding cancel_found save_cancelled_ipo_bid_transaction
    loaded-CancelOutcome none e = declines (λ j u p. p) (λ j. refl)
    loaded-CancelOutcome (some bid) e =
        split_if (CancelOutcome bid_id) bid.is_closed (λ _. declines (λ j u p. p) (λ j. refl))
          (λ is_open.
            split_if (CancelOutcome bid_id)
              (or_zero (store.find_ipo h.users.world bid.ipo_stock_id)).is_biddable
              (λ _. end_cancel-Outcome bid _ e is_open (change_user-Changed s bid.user_id _ _ _ h))
              (λ _. declines (λ j u p. p) (λ j. refl)))

    pub cancel_ipo_bid-CancelOutcome : CancelOutcome bid_id (cancel_ipo_bid s store bid_id h)
    unfolding cancel_ipo_bid
    cancel_ipo_bid-CancelOutcome = loaded-CancelOutcome _ refl
