-- ===== src/Tests/Placing.antt =====
-- Orders that are placed, and users that are blocked.
use dalal_street_server.Base.{ℕ, ◌≡◌, refl, true, none}
use dalal_street_server.Base.Word.{mul64}
use dalal_street_server.Order.{limit}
use dalal_street_server.Book.State.{bid}
use dalal_street_server.Account.Placing.Checks.{get_order_fee}
use dalal_street_server.Account.Placing.Place.{place}
use dalal_street_server.Account.Placing.Outcome.{PlaceOutcome, place-PlaceOutcome}
use dalal_street_server.Account.Users.{Users}
use dalal_street_server.Tests.Sample.{order}
use dalal_street_server.Tests.Servers.{buyer, server}

place-PlaceOutcome_example :
    PlaceOutcome
      (server true)
      bid
      buyer
      (order 5 limit 90 1)
      1
      (place (server true) bid 5 buyer (order 5 limit 90 1) 1)
place-PlaceOutcome_example = place-PlaceOutcome (server true) bid 5 buyer (order 5 limit 90 1) 1

no_fee : get_order_fee (server true) 0 0 ≡ 0
unfolding get_order_fee mul64
no_fee = refl

abbrev users : Users ℕ
users = record { user_locks = λ id. none; world = 0 }
