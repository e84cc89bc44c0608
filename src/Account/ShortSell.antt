-- ===== src/Account/ShortSell.antt =====
-- SquareOffLends of models/ShortSell.go.
pub mod Tables
pub mod Rounds
pub mod Returned
use dalal_street_server.Base.{
  ℕ, Bool, true, false, Option, none, some, List, [], ◌∷◌, if◌then◌else◌,
}
use dalal_street_server.Base.Word.{neg64}
use dalal_street_server.Account.State.{
  ShortSellLends, Server, transaction_row, lend_row, short_sell, get_transaction_ref,
}
use dalal_street_server.Account.Tx.{Tx, ◌>>=◌}
use dalal_street_server.Account.Placing.Rows.{update_short_sell_bank}

module _ (s : Server) where
  -- The saves for one lend, with the stock's price in memory.
  unfoldable pub save_squared : ShortSellLends → Tx s.World (Unit {0})
  save_squared lend = do
    _ ← (λ w. s.save w (
        transaction_row (
          get_transaction_ref (s.clock w) lend.user_id lend.stock_id short_sell 0
            (neg64 lend.stock_quantity) (s.stock w lend.stock_id).current_price 0 0)))
    _ ← (λ w. s.save w (lend_row (record lend { is_squared_off = true })))
    update_short_sell_bank s lend.stock_id lend.stock_quantity

  -- A save that fails is rolled back, a commit that fails is not.
  unfoldable pub end_squared : s.World × Option (Unit {0}) → s.World × Bool
  end_squared (w, none) = (s.rollback w, false)
  end_squared (w, some _) = s.commit w

  -- The loop over the lends, up to the first error.
  unfoldable pub square_off : List ShortSellLends → s.World → s.World × Bool
  square_off [] w = (w, true)
  square_off (lend ∷ lends) w =
      let (w', ok) = end_squared (save_squared lend (s.begin w)) in
      let rest = square_off lends w' in if ok then rest else (w', false)

  -- `active` is the query for the lends that are not squared off.
  unfoldable pub square_off_lends :
      (s.World → Option (List ShortSellLends)) → s.World → s.World × Bool
  square_off_lends active w = elim (active w) [
    | none ↦ (w, false)
    | some lends ↦ square_off lends w
  ]
