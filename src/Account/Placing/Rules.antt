-- ===== src/Account/Placing/Rules.antt =====
-- The rules that an order which PlaceAskOrder or PlaceBidOrder lets pass meets.
use dalal_street_server.Base.{
  ℕ, ◌+◌, ◌-◌, ◌%◌, ◌^◌, ◌≤◌, ◌<◌, ◌≡◌, refl, true, false, Option, none, some, if◌then◌else◌,
  split_if, subst, ltb, arith,
}
use dalal_street_server.Base.Word.{add64, sub64, is_negative}
use dalal_street_server.Order.{Order}
use dalal_street_server.Book.State.{Side, ask, bid}
use dalal_street_server.Account.State.{User, Server}
use dalal_street_server.Account.Placing.Checks.{
  Checked, refuse, allow, order_limit, short_sell_borrow_limit, minimum_order_price, is_limit,
  is_positive, short_sell_quantity, check_lent, check_lendable, check_owned, upper_limit,
  lower_limit, fee_of_order, cash_to_reserve,
}

-- The stocks that an ask of `quantity` lacks where the user has `owned`, an int64.
abbrev pub lacking : ℕ → ℕ → ℕ
lacking owned quantity = if is_negative owned then quantity else quantity - owned

lacking-short :
    (owned quantity : ℕ)
    → quantity ≤ order_limit
    → 1 ≤ lacking owned quantity
    → (short_sell_quantity owned quantity ≡ lacking owned quantity)
      × (is_positive (short_sell_quantity owned quantity) ≡ true)
unfolding short_sell_quantity is_positive is_negative sub64
lacking-short owned quantity small lacks = ground arith

module _ (s : Server) where
  -- So many stocks are left to be borrowed, and the user stays within the limit of a day.
  pub data CanBorrow (w : s.World) (o : Order) (short : ℕ) : Type 0 where
    can_borrow :
        (available lent : ℕ)
        → s.lendable w o.stock_id ≡ some available
        → s.lent w o.stock_id o.user_id ≡ some lent
        → short ≤ available
        → (lent + short) % 2 ^ 32 ≤ short_sell_borrow_limit
        → CanBorrow w o short

  -- An ask has to borrow what the user lacks of the quantity.
  pub data CanSell (w : s.World) (user : User) (o : Order) : Type 0 where
    can_sell :
        (owned : ℕ)
        → s.stock_count w user.id o.stock_id ≡ some owned
        → (1 ≤ lacking owned o.stock_quantity → CanBorrow w o (lacking owned o.stock_quantity))
        → CanSell w user o

  -- The cash does not fall below 0 by the fee of an ask, or by the reserve and the fee of a bid.
  abbrev pub Covered : Side → s.World → User → Order → Type 0
  Covered ask w user o =
      CanSell w user o × (is_negative (sub64 user.cash (fee_of_order s w o)) ≡ false)
  Covered bid w user o =
      is_negative (sub64 user.cash (add64 (cash_to_reserve s w o) (fee_of_order s w o))) ≡ false

  -- The rules that an order meets: the stock is not bankrupt, the quantity is in range, the
  -- price of a limit order is above the minimum and in the window around the current price, and the
  -- user has the cash and, for an ask, the stocks or the right to borrow them.
  pub record IsPlaceable (side : Side) (w : s.World) (user : User) (o : Order) : Type 0 where
    pub solvent : (s.stock w o.stock_id).is_bankrupt ≡ false
    pub quantity : (1 ≤ o.stock_quantity) × (o.stock_quantity ≤ order_limit)
    pub priced :
        is_limit o.order_type ≡ true
        → (minimum_order_price < o.price)
          × (lower_limit s (s.stock w o.stock_id).current_price ≤ o.price)
          × (o.price ≤ upper_limit s (s.stock w o.stock_id).current_price)
    pub covered : Covered side w user o

  -- What a check of the stocks shows when it lets pass.
  abbrev pub Shows : Type 0 → Checked → Type 0
  Shows P (refuse e) = Unit
  Shows P (allow amount) = P

  check_lent-CanBorrow :
      (w : s.World) (o : Order) (available short : ℕ) (lent : Option ℕ)
      → s.lendable w o.stock_id ≡ some available
      → s.lent w o.stock_id o.user_id ≡ lent
      → short ≤ available
      → Shows (CanBorrow w o short) (check_lent lent short)
  unfolding check_lent
  check_lent-CanBorrow w o available short none e f enough = tt
  check_lent-CanBorrow w o available short (some lent) e f enough =
      split_if (Shows (CanBorrow w o short)) (ltb short_sell_borrow_limit ((lent + short) % 2 ^ 32))
        (λ _. tt) (λ within. can_borrow available lent e f enough (ground arith))

  check_lendable-CanBorrow :
      (w : s.World) (o : Order) (short : ℕ) (available : Option ℕ)
      → s.lendable w o.stock_id ≡ available
      → Shows (CanBorrow w o short) (check_lendable available (s.lent w o.stock_id o.user_id) short)
  unfolding check_lendable
  check_lendable-CanBorrow w o short none e = tt
  check_lendable-CanBorrow w o short (some available) e =
      split_if (Shows (CanBorrow w o short)) (ltb available short) (λ _. tt)
        (λ enough. check_lent-CanBorrow w o available short _ e refl (ground arith))

  weaken-Shows : {P Q : Type 0} (c : Checked) → (P → Q) → Shows P c → Shows Q c
  weaken-Shows (refuse e) f p = tt
  weaken-Shows (allow amount) f p = f p

  pub check_owned-CanSell :
      (w : s.World) (user : User) (o : Order) (owned : Option ℕ)
      → s.stock_count w user.id o.stock_id ≡ owned
      → o.stock_quantity ≤ order_limit
      → Shows (CanSell w user o) (check_owned s w o owned)
  unfolding check_owned
  check_owned-CanSell w user o none e small = tt
  check_owned-CanSell w user o (some owned) e small =
      split_if (Shows (CanSell w user o)) (is_positive (short_sell_quantity owned o.stock_quantity))
        (λ _.
          weaken-Shows _
            (λ p.
              can_sell owned e
                (λ l. subst (CanBorrow w o) (lacking-short owned o.stock_quantity small l).0 p))
            (check_lendable-CanBorrow w o (short_sell_quantity owned o.stock_quantity) _ refl))
        (λ no. can_sell owned e (λ l.
          let yes = (lacking-short owned o.stock_quantity small l).1 in absurd (ground arith)))
