-- ===== src/Book/State.antt =====
-- The order book, what it uses of the rest of the server, and the steps on its queues.
use dalal_street_server.Base.{ℕ, Bool, true, false, Option, some, List, ◌==◌, if◌then◌else◌, ◌>>=◌}
use dalal_street_server.Order.{Order}
use dalal_street_server.Pqueue.Defs.{Pqueue, push, pop}
use dalal_street_server.Depth.{Depth}

pub data Side : Type 0 where
  ask bid : Side

abbrev pub other : Side → Side
other ask = bid
other bid = ask

abbrev pub is_ask : Side → Bool
is_ask ask = true
is_ask bid = false

-- A pair of fields, such as `asks` and `bids`, with one of them assigned.
abbrev pub with_side {ℓ} : {A : Type ℓ} → Side → A → (Side → A) → Side → A
with_side ask x f ask = x
with_side ask x f bid = f bid
with_side bid x f ask = f ask
with_side bid x f bid = x

-- AskOrderFillStatus and BidOrderFillStatus of models/User.go.
pub data FillStatus : Type 0 where
  already_closed done undone : FillStatus

-- What the book reads of a models.Transaction. The quantity is an int64 pattern.
pub record Transaction : Type 0 where
  pub price : ℕ
  pub stock_quantity : ℕ
  pub created_at : List ℕ

pub record Filled (World : Type 0) : Type 0 where
  pub world : World
  pub ask_order : Order
  pub bid_order : Order
  pub ask_status : FillStatus
  pub bid_status : FillStatus
  pub transaction : Option Transaction

-- The rest of the server: users, stocks, database and clock are `World`; `fill` is `fillOrderFn`,
-- which may change the two orders through their pointers; `save` is `db.Save`, with whether it
-- succeeded.
pub record Exchange : Type 1 where
  pub World : Type 0
  pub current_price : World → ℕ → ℕ
  pub clock : World → List ℕ
  pub save : World → Side → Order → World × Bool
  pub fill : World → Order → Order → ℕ → ℕ → Filled World

pub record Book (World : Type 0) : Type 0 where
  pub orders : Side → ℕ → Order
  pub queue : Side → Pqueue
  pub stops : Side → Pqueue
  pub depth : Depth
  pub world : World

module _ {World : Type 0} where
  abbrev pub set_order : Book World → Side → ℕ → Order → Book World
  set_order b s i o = record b {
    orders = with_side s (λ j. if i == j then o else b.orders s j) b.orders;
  }

  -- `ob.asks.Push(ask)`, or the same on `bids`.
  unfoldable pub push_queue : Side → ℕ → Book World → Option (Book World)
  push_queue s i b =
      push (b.orders s) (b.queue s) i >>= λ q. some (record b { queue = with_side s q b.queue })

  unfoldable pub pop_queue : Side → Book World → Option (Option ℕ × Book World)
  pop_queue s b = pop (b.orders s) (b.queue s) >>= λ (r, q).
      some (r, record b { queue = with_side s q b.queue })

  unfoldable pub push_stop : Side → ℕ → Book World → Option (Book World)
  push_stop s i b =
      push (b.orders s) (b.stops s) i >>= λ q. some (record b { stops = with_side s q b.stops })

  unfoldable pub pop_stop : Side → Book World → Option (Option ℕ × Book World)
  pop_stop s b = pop (b.orders s) (b.stops s) >>= λ (r, q).
      some (r, record b { stops = with_side s q b.stops })
