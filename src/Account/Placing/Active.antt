-- ===== src/Account/Placing/Active.antt =====
-- Orders that are placed with the type of a triggered stop-loss order.
use dalal_street_server.Base.{ℕ, ◌<◌, ◌≡◌, sym, ap, ap₂, ◌∙◌, arith}
use dalal_street_server.Base.Word.{word_mod, sub64, mul64, add64_exact}
use dalal_street_server.Order.{Order, stop_loss_active}
use dalal_street_server.Book.State.{bid}
use dalal_street_server.Account.State.{User, Server}
use dalal_street_server.Account.Placing.Checks.{
  order_fee_percent, fee_of_order, cash_to_reserve, get_order_fee, get_order_fee_price,
  price_of_order,
}
use dalal_street_server.Account.Placing.Outcome.{charged}

mul64_zero : (a : ℕ) → mul64 a 0 ≡ 0
unfolding mul64
mul64_zero a = omega arith

sub64_zero : (a : ℕ) → a < word_mod → sub64 a 0 ≡ a
unfolding sub64
sub64_zero a h = omega arith

module _ (s : Server) where
  module _ (o : Order) (w : s.World) (active : o.order_type ≡ stop_loss_active)
      (free : get_order_fee s 0 0 ≡ 0) where
    price_zero : price_of_order s w o ≡ 0
    unfolding get_order_fee_price
    price_zero = rw active

    reserve_zero : cash_to_reserve s w o ≡ 0
    unfolding cash_to_reserve
    reserve_zero = rw price_zero (mul64_zero o.stock_quantity)

    fee_any : (q : ℕ) → get_order_fee s q 0 ≡ get_order_fee s 0 0
    unfolding get_order_fee
    fee_any q =
        ap
          (λ n.
            s.floats.to_uint
              (s.floats.times (s.floats.ratio order_fee_percent 100) (s.floats.of_uint n)))
          (mul64_zero q ∙ sym (mul64_zero 0))

    fee_zero : fee_of_order s w o ≡ 0
    fee_zero = ap (get_order_fee s o.stock_quantity) price_zero ∙ fee_any o.stock_quantity ∙ free

    -- A bid that comes with the type of a triggered stop-loss order pays no fee and reserves no cash,
    -- whatever its price and quantity, where 3 percent of 0 is 0 in floating point.
    pub stop_loss_active-charged :
        (user : User)
        → user.cash < word_mod
        → user.reserved_cash < word_mod
        → charged s bid w o user ≡ user
    stop_loss_active-charged user small fits =
        rw (fee_zero, reserve_zero)
          (ap₂ (λ c r. record user { cash = c; reserved_cash = r })
            (ap (λ c. sub64 c 0) (sub64_zero user.cash small) ∙ sub64_zero user.cash small)
            (add64_exact user.reserved_cash 0 (omega arith) ∙ omega arith))
