-- ===== src/Ipo/Funds.antt =====
-- The part that SaveNewIpoBidTransaction, SaveCancelledIpoBidTransaction, allotIpoSlotToUser and
-- RefundIpoSlotToUser share: a user is locked and changed, rows are saved, and the old cash is put
-- back if a save fails. A result none is a call that waits forever or panics.
use dalal_street_server.Base.{ℕ, Option, none, some}
use dalal_street_server.Base.Word.{add64, sub64, neg64}
use dalal_street_server.Account.State.{User, Transaction, Server, user_row, transaction_row}
use dalal_street_server.Account.Users.{put}
use dalal_street_server.Account.Tx.{Tx, ◌>>=◌, pure, committed}
use dalal_street_server.Account.Holding.{Holding, take_user, set_world, release}
use dalal_street_server.Ipo.{IpoBid, IpoStore}

-- The price goes from the cash to the reserved cash, comes back, or is spent.
abbrev pub placed : ℕ → User → User
placed price user = record user {
  cash = sub64 user.cash price;
  reserved_cash = add64 user.reserved_cash price;
}

abbrev pub returned : ℕ → User → User
returned price user = record user {
  cash = add64 user.cash price;
  reserved_cash = sub64 user.reserved_cash price;
}

abbrev pub spent : ℕ → User → User
spent cost user = record user { reserved_cash = sub64 user.reserved_cash cost }

module _ (s : Server) where
  abbrev pub put_user : ℕ → User → Holding s.World → Holding s.World
  put_user id user h = record h { users = put s h.users id user }

  unfoldable pub end_change :
      {A : Type 0}
      → ℕ
      → User
      → User
      → (s.World → s.World)
      → Holding s.World
      → s.World × Option A
      → Option A × Holding s.World
  end_change id old new undo h (w, none) =
      (none, release s id (set_world s (undo w) (put_user id old h)))
  end_change id old new undo h (w, some a) =
      (some a, release s id (set_world s w (put_user id new h)))

  -- The deferred function closes a nil channel if no user is found, which panics.
  unfoldable pub change_taken :
      {A : Type 0}
      → ℕ
      → (User → User)
      → (User → Tx s.World A)
      → (s.World → s.World)
      → Option User × Holding s.World
      → Option (Option A × Holding s.World)
  change_taken id change tx undo (none, h) = none
  change_taken id change tx undo (some user, h) =
      some (end_change id user (change user) undo h (tx (change user) h.users.world))

  -- `undo` is what happens to the database after a save that fails.
  unfoldable pub change_user :
      {A : Type 0}
      → ℕ
      → (User → User)
      → (User → Tx s.World A)
      → (s.World → s.World)
      → Holding s.World
      → Option (Option A × Holding s.World)
  change_user id change tx undo h = elim (take_user s id (set_world s (s.begin h.users.world) h)) [
    | none ↦ none
    | some r ↦ change_taken id change tx undo r
  ]

  unfoldable pub found : {A : Type 0} → (s.World → Option A) → Tx s.World A
  found query w = (w, query w)

  module _ (store : IpoStore s.World s.floats.Float) where
    unfoldable pub save_new_tx : IpoBid → ℕ → User → Tx s.World ℕ
    save_new_tx bid price user = do
      id ← (λ w. store.create_bid w bid)
      _ ← (λ w. s.save w (user_row user))
      _ ← (λ w. store.insert_transaction w user.id price (neg64 price) (s.clock w))
      _ ← found (λ w. store.find_transaction w user.id (neg64 price))
      _ ← committed s
      pure id

    -- The query looks for the total below 0, which the transaction of the bid has.
    unfoldable pub save_cancelled_tx : IpoBid → ℕ → User → Tx s.World (Unit {0})
    save_cancelled_tx bid price user = do
      _ ← (λ w. store.save_bid w bid)
      _ ← (λ w. s.save w (user_row user))
      _ ← (λ w. store.insert_transaction w user.id (neg64 price) price (s.clock w))
      _ ← found (λ w. store.find_transaction w user.id (neg64 price))
      committed s

    unfoldable pub save_slot_tx :
        IpoBid → Transaction → Tx s.World (Unit {0}) → User → Tx s.World (Unit {0})
    save_slot_tx bid t commit user = do
      _ ← (λ w. store.save_bid w bid)
      _ ← (λ w. s.save w (user_row user))
      _ ← (λ w. s.save w (transaction_row t))
      commit

    unfoldable pub save_new_ipo_bid_transaction :
        IpoBid → ℕ → ℕ → Holding s.World → Option (Option ℕ × Holding s.World)
    save_new_ipo_bid_transaction bid user_id price =
        change_user user_id (placed price) (save_new_tx bid price) s.rollback

    unfoldable pub save_cancelled_ipo_bid_transaction :
        IpoBid → ℕ → Holding s.World → Option (Option (Unit {0}) × Holding s.World)
    save_cancelled_ipo_bid_transaction bid price =
        change_user bid.user_id (returned price) (save_cancelled_tx bid price) s.rollback
