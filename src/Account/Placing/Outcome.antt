-- ===== src/Account/Placing/Outcome.antt =====
-- What placing an order comes to.
use dalal_street_server.Base.{ℕ, ◌≤◌, ◌≡◌, refl, false, Option, none, some, List, split_if, arith}
use dalal_street_server.Base.Word.{add64, sub64, is_negative}
use dalal_street_server.Order.{Order}
use dalal_street_server.Book.State.{Side, ask, bid}
use dalal_street_server.Account.State.{User, Server}
use dalal_street_server.Account.Yields.{Yields, stopped, yielded}
use dalal_street_server.Account.Placing.Checks.{
  PlaceError, no_user, Checked, refuse, allow, order_limit, is_quantity_refused, check_price,
  check_ask, check_bid, check_fee, fee_of_order, cash_to_reserve,
}
use dalal_street_server.Account.Placing.Rules.{
  IsPlaceable, Covered, CanSell, Shows, check_owned-CanSell,
}
use dalal_street_server.Account.Placing.Rows.{create, after_create, created_now}
use dalal_street_server.Account.Placing.Saved.{save_ask_order-Yields, save_bid_order-Yields}
use dalal_street_server.Account.Placing.Place.{
  Placed, check, save_order, end_place, place_created, place_checked, place_priced, place,
}

module _ (s : Server) where
  -- The user after the order: the fee is paid, and a bid has its cash reserved.
  abbrev pub charged : Side → s.World → Order → User → User
  charged ask w o user = record user { cash = sub64 user.cash (fee_of_order s w o) }
  charged bid w o user = record user {
    cash = sub64 (sub64 user.cash (fee_of_order s w o)) (cash_to_reserve s w o);
    reserved_cash = add64 user.reserved_cash (cash_to_reserve s w o);
  }

  pub data PlaceOutcome (side : Side) (user : User) (o : Order) (w : s.World)
      : Placed s.World → Type 0 where
    refused :
        {r : Placed s.World} (e : PlaceError)
        → r.error ≡ some e
        → r.user ≡ user
        → r.order ≡ o
        → PlaceOutcome side user o w r
    unreported :
        {r : Placed s.World}
        → r.error ≡ none
        → r.id ≡ 0
        → r.user ≡ user
        → IsPlaceable s side w user o
        → PlaceOutcome side user o w r
    placed :
        {r : Placed s.World} (id : ℕ) (at : List ℕ)
        → r.error ≡ none
        → r.id ≡ id
        → r.order ≡ record o { id = id; created_at = at; updated_at = at }
        → r.user ≡ charged side w o user
        → IsPlaceable s side w user o
        → PlaceOutcome side user o w r

  -- What an order that passes the checks is saved with.
  HasAmount : Side → s.World → Order → ℕ → Type 0
  HasAmount ask w o amount = Unit
  HasAmount bid w o amount = amount ≡ cash_to_reserve s w o

  save_order-Yields :
      (side : Side) (user_id amount : ℕ) (o o' : Order) (user : User) (w w' : s.World)
      → HasAmount side w o amount
      → Yields
          (λ u. u ≡ charged side w o user)
          (save_order s side user_id (fee_of_order s w o) amount o' user w')
  unfolding save_order HasAmount
  save_order-Yields ask user_id amount o o' user w w' h =
      save_ask_order-Yields s user_id _ amount o' user w'
  save_order-Yields bid user_id amount o o' user w w' h =
      rw h (save_bid_order-Yields s user_id _ (cash_to_reserve s w o) o' user w')

  module _ (side : Side) (user_id : ℕ) (user : User) (o : Order) (w : s.World) where
    abbrev Outcome : Placed s.World → Type 0
    Outcome = PlaceOutcome side user o w

    end_place-Outcome :
        (id : ℕ) (at : List ℕ) (r : s.World × Option User)
        → IsPlaceable s side w user o
        → Yields (λ u. u ≡ charged side w o user) r
        → Outcome (end_place s user (record o { id = id; created_at = at; updated_at = at }) r)
    unfolding end_place
    end_place-Outcome id at _ ok stopped = unreported refl refl refl ok
    end_place-Outcome id at _ ok (yielded e) = placed id at refl refl refl e ok

    place_created-Outcome :
        (amount : ℕ) (w' : s.World) (r : s.World × Option ℕ)
        → HasAmount side w o amount
        → IsPlaceable s side w user o
        → Outcome (
            place_created s side user_id
              (fee_of_order s w o)
              amount
              user
              (after_create s side (created_now s w' o) r))
    unfolding place_created after_create
    place_created-Outcome amount w' (w1, none) h ok = unreported refl refl refl ok
    place_created-Outcome amount w' (w1, some id) h ok =
        end_place-Outcome id (s.clock w') _ ok
          (save_order-Yields side user_id amount o _ user w _ h)

    -- What the checks give.
    Passes : Checked → Type 0
    Passes (refuse e) = Unit
    Passes (allow amount) =
        HasAmount side w o amount
        × ((1 ≤ o.stock_quantity) × (o.stock_quantity ≤ order_limit))
        × Covered s side w user o

    place_checked-Outcome :
        (c : Checked)
        → Passes c
        → ((1 ≤ o.stock_quantity) × (o.stock_quantity ≤ order_limit)
            → Covered s side w user o
            → IsPlaceable s side w user o)
        → Outcome (place_checked s side user_id user o w c)
    unfolding place_checked create Passes
    place_checked-Outcome (refuse e) h ok = refused e refl refl refl
    place_checked-Outcome (allow amount) h ok =
        place_created-Outcome amount (s.begin w) _ h.0 (ok h.1 h.2)

    quantity_in_range :
        is_quantity_refused o ≡ false → (1 ≤ o.stock_quantity) × (o.stock_quantity ≤ order_limit)
    unfolding is_quantity_refused
    quantity_in_range e = ground arith

    check_price-IsPlaceable :
        check_price s w o ≡ none
        → (1 ≤ o.stock_quantity) × (o.stock_quantity ≤ order_limit)
        → Covered s side w user o
        → IsPlaceable s side w user o
    unfolding check_price
    check_price-IsPlaceable e q covered = record {
      solvent = ground arith;
      quantity = q;
      priced = λ l. ground arith;
      covered = covered;
    }

  check_fee-Passes :
      (user_id : ℕ) (user : User) (o : Order) (w : s.World) (c : Checked)
      → (1 ≤ o.stock_quantity) × (o.stock_quantity ≤ order_limit)
      → Shows s (CanSell s w user o) c
      → Passes ask user_id user o w (check_fee s w user o c)
  unfolding check_fee Passes HasAmount
  check_fee-Passes user_id user o w (refuse e) q shown = tt
  check_fee-Passes user_id user o w (allow short) q shown =
      split_if (Passes ask user_id user o w) (is_negative (sub64 user.cash (fee_of_order s w o)))
        (λ _. tt) (λ rich. (tt, q, (shown, rich)))

  check-Passes :
      (side : Side) (user_id : ℕ) (user : User) (o : Order) (w : s.World)
      → Passes side user_id user o w (check s side w user o)
  unfolding check check_ask check_bid Passes HasAmount
  check-Passes ask user_id user o w =
      split_if (Passes ask user_id user o w) (is_quantity_refused o) (λ _. tt)
        (λ e.
          let q = quantity_in_range ask user_id user o w e in
          check_fee-Passes user_id user o w _ q (check_owned-CanSell s w user o _ refl q.1))
  check-Passes bid user_id user o w =
      split_if (Passes bid user_id user o w) (is_quantity_refused o) (λ _. tt)
        (λ e.
          split_if (Passes bid user_id user o w)
            (is_negative (sub64 user.cash (add64 (cash_to_reserve s w o) (fee_of_order s w o))))
            (λ _. tt) (λ rich. (refl, quantity_in_range bid user_id user o w e, rich)))

  place_priced-Outcome :
      (side : Side) (user_id : ℕ) (user : User) (o : Order) (w : s.World) (p : Option PlaceError)
      → check_price s w o ≡ p
      → PlaceOutcome side user o w (place_priced s side user_id user o w p)
  unfolding place_priced
  place_priced-Outcome side user_id user o w (some e) h = refused e refl refl refl
  place_priced-Outcome side user_id user o w none h =
      split_if (PlaceOutcome side user o w) (s.lock w user_id)
        (λ _.
          place_checked-Outcome side user_id user o w _ (check-Passes side user_id user o w)
            (check_price-IsPlaceable side user_id user o w h))
        (λ _. refused no_user refl refl refl)

  -- Placing an ask or a bid ends in one of three ways. It is refused with an error, and the user and
  -- the order are as they were. Or a save has failed: the user is as it was, but there is no error
  -- and the id is 0. Or the order has its new id and times, the user has paid the fee, and a bid has
  -- its price times its quantity moved from the free to the reserved cash. An order that is not
  -- refused is of a stock that is not bankrupt, has a quantity from 1 to 50, and, if it is a limit
  -- order, a price above the minimum and in the window around the current price. As an int64, the
  -- user's cash less the fee, and for a bid less the reserve as well, is then not negative. What an
  -- ask sells beyond the stocks of the user can be borrowed, and with it the stocks that the user
  -- has borrowed, added as uint32s, are at most 20.
  pub place-PlaceOutcome :
      (side : Side) (user_id : ℕ) (user : User) (o : Order) (w : s.World)
      → PlaceOutcome side user o w (place s side user_id user o w)
  unfolding place
  place-PlaceOutcome side user_id user o w = place_priced-Outcome side user_id user o w _ refl
