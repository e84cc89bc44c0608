-- ===== src/Account/Placing/Place.antt =====
-- PlaceAskOrder and PlaceBidOrder.
use dalal_street_server.Base.{ℕ, Option, none, some, if◌then◌else◌}
use dalal_street_server.Order.{Order}
use dalal_street_server.Book.State.{Side, ask, bid}
use dalal_street_server.Account.State.{User, Server}
use dalal_street_server.Account.Tx.{Tx}
use dalal_street_server.Account.Placing.Checks.{
  PlaceError, no_user, Checked, refuse, allow, check_price, check_ask, check_bid, fee_of_order,
}
use dalal_street_server.Account.Placing.Rows.{create, save_ask_order, save_bid_order}

-- `order` is what the order's pointer holds afterwards, `id` and `error` are the results.
pub record Placed (World : Type 0) : Type 0 where
  pub world : World
  pub user : User
  pub order : Order
  pub id : ℕ
  pub error : Option PlaceError

module _ (s : Server) where
  unfoldable pub check : Side → s.World → User → Order → Checked
  check ask = check_ask s
  check bid = check_bid s

  unfoldable pub save_order : Side → ℕ → ℕ → ℕ → Order → User → Tx s.World User
  save_order ask = save_ask_order s
  save_order bid = save_bid_order s

  -- errorHelper: it returns the variable `err` of the function, which is nil at this point, so the
  -- failure is not reported.
  abbrev pub give_up : User → Order → s.World → Placed s.World
  give_up user o w = record { world = s.rollback w; user = user; order = o; id = 0; error = none }

  abbrev pub refused_with : PlaceError → User → Order → s.World → Placed s.World
  refused_with e user o w = record { world = w; user = user; order = o; id = 0; error = some e }

  unfoldable pub end_place : User → Order → s.World × Option User → Placed s.World
  end_place old o (w, none) = give_up old o w
  end_place old o (w, some user) = record {
    world = w;
    user = user;
    order = o;
    id = o.id;
    error = none;
  }

  unfoldable pub place_created :
      Side → ℕ → ℕ → ℕ → User → s.World × Order × Option ℕ → Placed s.World
  place_created side user_id fee amount user (w, o, none) = give_up user o w
  place_created side user_id fee amount user (w, o, some id) =
      end_place user o (save_order side user_id fee amount o user w)

  -- The part after the checks; the fee was computed with them.
  unfoldable pub place_checked : Side → ℕ → User → Order → s.World → Checked → Placed s.World
  place_checked side user_id user o w (refuse e) = refused_with e user o w
  place_checked side user_id user o w (allow amount) =
      place_created side user_id (fee_of_order s w o) amount user (create s side o (s.begin w))

  unfoldable pub place_priced :
      Side → ℕ → User → Order → s.World → Option PlaceError → Placed s.World
  place_priced side user_id user o w (some e) = refused_with e user o w
  place_priced side user_id user o w none =
      if s.lock w user_id
      then place_checked side user_id user o w (check side w user o)
      else refused_with no_user user o w

  -- `user` is the locked user of id `user_id`.
  unfoldable pub place : Side → ℕ → User → Order → s.World → Placed s.World
  place side user_id user o w = place_priced side user_id user o w (check_price s w o)
