-- ===== src/Account/Placing/Saved.antt =====
-- The user after the saves of an ask and of a bid.
use dalal_street_server.Base.{ℕ, ◌≡◌, refl}
use dalal_street_server.Base.Word.{add64, sub64}
use dalal_street_server.Order.{Order}
use dalal_street_server.Account.State.{User, Server}
use dalal_street_server.Account.Yields.{Yields, bind-Yields, then-Yields, get-Yields, pure-Yields}
use dalal_street_server.Account.Placing.Rows.{
  subtract_user_cash, add_user_reserved_cash, save_ask_order, save_bid_order,
}

module _ (s : Server) where
  subtract-Yields :
      (user : User) (fee : ℕ) (w : s.World)
      → Yields
          (λ u. u ≡ record user { cash = sub64 user.cash fee })
          (subtract_user_cash s user fee w)
  unfolding subtract_user_cash
  subtract-Yields user fee w = bind-Yields _ _ _ λ _ w1. pure-Yields _ _ refl

  add_reserved-Yields :
      (user : User) (cash : ℕ) (w : s.World)
      → Yields
          (λ u. u ≡ record user { reserved_cash = add64 user.reserved_cash cash })
          (add_user_reserved_cash s user cash w)
  unfolding add_user_reserved_cash
  add_reserved-Yields user cash w = bind-Yields _ _ _ λ _ w1. pure-Yields _ _ refl

  cash_moved :
      (user u1 u2 u3 : User) (fee cash : ℕ)
      → u1 ≡ record user { cash = sub64 user.cash fee }
      → u2 ≡ record u1 { reserved_cash = add64 u1.reserved_cash cash }
      → u3 ≡ record u2 { cash = sub64 u2.cash cash }
      → u3 ≡ record user {
        cash = sub64 (sub64 user.cash fee) cash;
        reserved_cash = add64 user.reserved_cash cash;
      }
  cash_moved user u1 u2 u3 fee cash e1 e2 e3 = cc

  pub save_ask_order-Yields :
      (user_id fee short : ℕ) (o : Order) (user : User) (w : s.World)
      → Yields
          (λ u. u ≡ record user { cash = sub64 user.cash fee })
          (save_ask_order s user_id fee short o user w)
  unfolding save_ask_order
  save_ask_order-Yields user_id fee short o user w =
      then-Yields _ _ w (subtract-Yields user fee w) λ u w1 e. get-Yields _ _ _ (
        bind-Yields _ _ _ λ _ _. bind-Yields _ _ _ λ _ w3.
          get-Yields _ _ w3 (bind-Yields _ _ _ λ _ _. bind-Yields _ _ _ λ _ w5. pure-Yields _ w5 e))

  pub save_bid_order-Yields :
      (user_id fee cash : ℕ) (o : Order) (user : User) (w : s.World)
      → Yields
          (λ u. u ≡ record user {
            cash = sub64 (sub64 user.cash fee) cash;
            reserved_cash = add64 user.reserved_cash cash;
          })
          (save_bid_order s user_id fee cash o user w)
  unfolding save_bid_order
  save_bid_order-Yields user_id fee cash o user w =
      then-Yields _ _ w (subtract-Yields user fee w) λ u1 w1 e1.
        then-Yields _ _ w1 (add_reserved-Yields u1 cash w1) λ u2 w2 e2. get-Yields _ _ w2 (
          bind-Yields _ _ _ λ _ w3. then-Yields _ _ w3 (subtract-Yields u2 cash w3) λ u3 w4 e3.
            get-Yields _ _ w4 (
              bind-Yields _ _ _ λ _ w5.
                bind-Yields _ _ _
                  λ _ w6. pure-Yields _ w6 (cash_moved user u1 u2 u3 fee cash e1 e2 e3)))
