-- ===== src/Book/MakeTrade.antt =====
-- makeTrade: it returns a valid book, whatever `fillOrderFn` answers.
use mathlib.Core.List.{Mem, mem-append_right}
use mathlib.Core.List.Perm
use native.Mathlib.Decide.{ℕ_discrete}
use dalal_street_server.Base.{
  ℕ, ◌+◌, ◌≤◌, ◌≡◌, refl, ap, ◌∙◌, Bool, false, Option, none, some, arith, Returns, returns,
  bind-Returns, weaken-Returns,
}
use dalal_street_server.Base.Counts.{occurrences, occurrences-append, occurrences-Perm}
use dalal_street_server.Order.{Order, is_stop_loss}
use dalal_street_server.Order.Comparator.{Factors}
use dalal_street_server.Pqueue.Defs.{Pqueue, waiting}
use dalal_street_server.Pqueue.Valid.{rank, IsValid-same}
use dalal_street_server.Book.State.{Side, ask, bid, Exchange, Filled, Book, Transaction}
use dalal_street_server.Book.Valid.{IsQueue, IsStops, IsValidBook}
use dalal_street_server.Book.Fire.{assign}
use dalal_street_server.Book.StopLosses.{StopLossesMoved, trigger_stop_losses-StopLossesMoved}
use dalal_street_server.Book.Trade.{
  fill_top, filled_book, close_traded, close_failed, settle, make_trade,
}

-- What the book relies on in `fillOrderFn`: it changes neither the type of an order nor its price,
-- its quantity or the time when it was placed.
pub record IsFill (x : Exchange) : Type 0 where
  pub ask_rank : (w : x.World) (a i : Order) (p q : ℕ) → rank (x.fill w a i p q).ask_order ≡ rank a
  pub bid_rank : (w : x.World) (a i : Order) (p q : ℕ) → rank (x.fill w a i p q).bid_order ≡ rank i

abbrev pub live : {World : Type 0} → Side → Book World → ℕ
live s b = (b.queue s).elems_count + (b.stops s).elems_count

-- How often an order waits on a side, in the queue or as a stop-loss order.
abbrev pub times : {World : Type 0} → Side → ℕ → Book World → ℕ
times s j b = occurrences j (waiting (b.queue s)) + occurrences j (waiting (b.stops s))

type_of_rank : (o p : Order) → rank o ≡ rank p → o.order_type ≡ p.order_type
unfolding rank
type_of_rank o p e = ap (λ (r : Factors). r.order_type) e

module _ (s : Side) (before now : ℕ → Order) (same : (j : ℕ) → rank (now j) ≡ rank (before j)) where
  stop_same : (j : ℕ) → is_stop_loss (now j).order_type ≡ is_stop_loss (before j).order_type
  stop_same j = ap is_stop_loss (type_of_rank (now j) (before j) (same j))

  pub rank-IsQueue : (q : Pqueue) → IsQueue s before q → IsQueue s now q
  rank-IsQueue q v = record {
    valid = IsValid-same before now q (λ j m. same j) v.valid;
    sort = v.sort;
    active = λ j m. stop_same j ∙ v.active j m;
  }

  pub rank-IsStops : (q : Pqueue) → IsStops s before q → IsStops s now q
  rank-IsStops q v = record {
    valid = IsValid-same before now q (λ j m. same j) v.valid;
    sort = v.sort;
    inactive = λ j m. stop_same j ∙ v.inactive j m;
    once = v.once;
  }

pub assign-rank :
    (i : ℕ) (o : Order) (orders : ℕ → Order)
    → rank o ≡ rank (orders i)
    → (j : ℕ) → rank (assign i o orders j) ≡ rank (orders j)
assign-rank i o orders e j = elim (ℕ_discrete i j) [
  | yes same ↦ ground (arith, e, ap (λ k. rank (orders k)) same)
  | no other ↦ ground arith
]

-- What makeTrade keeps: the number of orders of each side and how often each waits, those that wait
-- in a queue, and that an order is not a stop-loss order.
pub record Kept {World : Type 0} (b b' : Book World) : Type 0 where
  pub valid : IsValidBook b'
  pub total : (s : Side) → live s b' ≡ live s b
  pub stays : (s : Side) (j : ℕ) → times s j b' ≡ times s j b
  pub grown : (s : Side) → (b.queue s).elems_count ≤ (b'.queue s).elems_count
  pub waits : (s : Side) (j : ℕ) → Mem j (waiting (b.queue s)) → Mem j (waiting (b'.queue s))
  pub active :
      (s : Side) (j : ℕ)
      → is_stop_loss (b.orders s j).order_type ≡ false
      → is_stop_loss (b'.orders s j).order_type ≡ false

moved-Kept :
    {World : Type 0} (price : ℕ) (c b' : Book World) → StopLossesMoved price c b' → Kept c b'
moved-Kept price c b' t = record {
  valid = t.valid;
  total = λ s. let (fired, m) = t.moved s in omega (arith, m.stops_count, m.queue_count);
  stays = λ s j.
      let (fired, m) = t.moved s in
      omega (
        arith,
        occurrences-Perm j _ _ m.left,
        occurrences-Perm j _ _ m.entered,
        occurrences-append j fired (waiting (b'.stops s)),
        occurrences-append j fired (waiting (c.queue s)),
      );
  grown = λ s. let (fired, m) = t.moved s in omega (arith, m.queue_count);
  waits =
      λ s j w. let (fired, m) = t.moved s in (Perm.mem_iff m.entered).1 (mem-append_right fired w);
  active = λ s j n.
      let (fired, m) = t.moved s in ap (λ (o : Order). is_stop_loss o.order_type) (m.kept j n) ∙ n;
}

settle-Kept :
    (x : Exchange) (t : Option Transaction) (r : Filled x.World) (p q : Bool) (b : Book x.World)
    → IsValidBook b
    → Returns (λ (ask_done, bid_done, b'). Kept b b') (settle x t r p q b)
unfolding settle close_traded close_failed
settle-Kept x (some sale) r p q b v =
    let c = close_traded x sale r.ask_order r.bid_order p q b in
    bind-Returns (trigger_stop_losses-StopLossesMoved x sale.price c v) λ b' t.
      let k = moved-Kept sale.price c b' t in
      returns (record {
        valid = k.valid;
        total = k.total;
        stays = k.stays;
        grown = k.grown;
        waits = k.waits;
        active = k.active;
      })
settle-Kept x none r p q b v = returns (record {
  valid = v;
  total = λ s. refl;
  stays = λ s j. refl;
  grown = λ s. omega arith;
  waits = λ s j w. w;
  active = λ s j n. n;
})

module _ (x : Exchange) (laws : IsFill x) (a i : ℕ) (b : Book x.World) (v : IsValidBook b) where
  abbrev r : Filled x.World
  r = fill_top x a i b

  filled-rank : (s : Side) (j : ℕ) → rank ((filled_book x a i r b).orders s j) ≡ rank (b.orders s j)
  filled-rank ask = assign-rank a r.ask_order (b.orders ask) (laws.ask_rank _ _ _ _ _)
  filled-rank bid = assign-rank i r.bid_order (b.orders bid) (laws.bid_rank _ _ _ _ _)

  filled-IsValidBook : IsValidBook (filled_book x a i r b)
  filled-IsValidBook s = (
    rank-IsQueue s (b.orders s) ((filled_book x a i r b).orders s) (filled-rank s) (b.queue s)
        (v s).0,
    rank-IsStops s (b.orders s) ((filled_book x a i r b).orders s) (filled-rank s) (b.stops s)
        (v s).1,
  )

  filled-active :
      (s : Side) (j : ℕ)
      → is_stop_loss (b.orders s j).order_type ≡ false
      → is_stop_loss ((filled_book x a i r b).orders s j).order_type ≡ false
  filled-active s j n =
      stop_same s (b.orders s) ((filled_book x a i r b).orders s) (filled-rank s) j ∙ n

  -- makeTrade returns, and what it returns is a valid book with the same number of orders on each
  -- side: no order leaves a queue, and stop-loss orders may become active.
  pub make_trade-Kept :
      (incoming_ask incoming_bid : Bool)
      → Returns
          (λ (ask_done, bid_done, b'). Kept b b')
          (make_trade x a i incoming_ask incoming_bid b)
  unfolding make_trade
  make_trade-Kept p q =
      weaken-Returns
        (λ (ask_done, bid_done, b') k. record {
          valid = k.valid;
          total = k.total;
          stays = k.stays;
          grown = k.grown;
          waits = k.waits;
          active = λ s j n. k.active s j (filled-active s j n);
        })
        (settle-Kept x r.transaction r p q (filled_book x a i r b) filled-IsValidBook)
