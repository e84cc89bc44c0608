-- ===== src/Book/Reach.antt =====
-- The life of an order book: loading, submitting and cancelling orders, and what the rest of the
-- server does between the calls. Every book on the way is valid, and every call returns.
use mathlib.Core.List.{Mem, not-mem-nil, Nodup-nil}
use dalal_street_server.Base.{
  ℕ, ◌≡◌, ◌≢◌, refl, ap, subst, true, Option, none, some, List, inl, inr, ◌>>=◌, Bool-cases,
  Returns, returns, bind-Returns, weaken-Returns, value-Returns,
}
use dalal_street_server.Order.{Order, is_stop_loss}
use dalal_street_server.Pqueue.Defs.{waiting, new}
use dalal_street_server.Pqueue.Valid.{rank, new-IsValid}
use dalal_street_server.Depth.{Depth}
use dalal_street_server.Book.State.{Side, ask, bid, Exchange, Book, set_order, push_stop}
use dalal_street_server.Book.Valid.{IsValidBook}
use dalal_street_server.Book.Steps.{
  with_queue-IsValidBook, with_stops-IsValidBook, push_queue-then, push_stop-then,
}
use dalal_street_server.Book.Fire.{assign-IsQueue, assign-IsStops, trigger_stoploss-Fired}
use dalal_street_server.Book.MakeTrade.{IsFill, assign-rank, rank-IsQueue, rank-IsStops}
use dalal_street_server.Book.Processed.{process-Processed}
use dalal_street_server.Book.Process.{add_to_depth, process}
use dalal_street_server.Book.Trade.{crosses, trigger_stoploss}
use dalal_street_server.Book.Session.{new_book, load_old, cancel_order, add_order, submit}

-- An order that waits in no stop-loss queue of its side.
abbrev pub IsFresh : {World : Type 0} → Side → ℕ → Book World → Type 0
IsFresh s i b = ¬ Mem i (waiting (b.stops s))

pub bind-some : {A : Type 0} (m : Option A) → (m >>= some) ≡ m
bind-some none = refl
bind-some (some a) = refl

pub new_book-IsValidBook :
    {World : Type 0} (orders : Side → ℕ → Order) (d : Depth) (w : World)
    → IsValidBook (new_book orders d w)
unfolding new_book new
new_book-IsValidBook orders d w ask = (
  record {
    valid = new-IsValid (orders ask) _;
    sort = refl;
    active = λ i m. absurd (not-mem-nil m);
  },
  record {
    valid = new-IsValid (orders ask) _;
    sort = refl;
    inactive = λ i m. absurd (not-mem-nil m);
    once = Nodup-nil;
  },
)
new_book-IsValidBook orders d w bid = (
  record {
    valid = new-IsValid (orders bid) _;
    sort = refl;
    active = λ i m. absurd (not-mem-nil m);
  },
  record {
    valid = new-IsValid (orders bid) _;
    sort = refl;
    inactive = λ i m. absurd (not-mem-nil m);
    once = Nodup-nil;
  },
)

-- LoadOldAsk and LoadOldBid return, and keep the book valid.
pub load_old-IsValidBook :
    {World : Type 0} (s : Side) (i : ℕ) (b : Book World)
    → IsValidBook b
    → IsFresh s i b
    → Returns IsValidBook (load_old s i b)
unfolding load_old add_to_depth
load_old-IsValidBook s i b v n = elim (Bool-cases (is_stop_loss (b.orders s i).order_type)) [
  | inl e ↦ rw e (
      subst (Returns IsValidBook) (bind-some (push_stop s i b))
        (push_stop-then s i b some v e n λ q qv p. returns (with_stops-IsValidBook s q b v qv)))
  | inr e ↦ rw e (push_queue-then s i b _ v e λ q qv p. returns (with_queue-IsValidBook s q b v qv))
]

cancel_order-IsValidBook :
    {World : Type 0} (s : Side) (i : ℕ) (b : Book World)
    → IsValidBook b
    → IsValidBook (cancel_order s i b)
unfolding cancel_order
cancel_order-IsValidBook s i b v = elim (Bool-cases (is_stop_loss (b.orders s i).order_type)) [
  | inl e ↦ rw e v
  | inr e ↦ rw e v
]

-- A stop-loss order that is not crossed goes into its queue, and no message is sent.
wait-IsValidBook :
    {World : Type 0} (s : Side) (i : ℕ) (b : Book World) (k : ℕ → Book World → Option (Book World))
    → IsValidBook b
    → is_stop_loss (b.orders s i).order_type ≡ true
    → IsFresh s i b
    → Returns IsValidBook (
        (push_stop s i b >>= λ b'. some (none, b')) >>= λ (message, b'). elim message [
          | none ↦ some b'
          | some j ↦ k j b'
        ])
wait-IsValidBook {World} s i b k v e n =
    bind-Returns
      (push_stop-then {P = λ ((m, b') : Option ℕ × Book World). (m ≡ none) × IsValidBook b'} s i b _
        v e n λ q qv p. returns (refl, with_stops-IsValidBook s q b v qv))
      λ (m, b') (none_sent, bv). rw none_sent (returns bv)

returned : {A : Type 0} {P : A → Type 0} {r : Option A} {a : A} → Returns P r → r ≡ some a → P a
returned {P = P} w e = value-Returns (subst (Returns P) e w)

avoid : {i : ℕ} {l : List ℕ} → ¬ Mem i l → (j : ℕ) → Mem j l → j ≢ i
avoid {l = l} n j m e = n (subst (λ k. Mem k l) e m)

set_order-fresh :
    {World : Type 0} (s : Side) (i : ℕ) (o : Order) (b : Book World)
    → IsValidBook b
    → ¬ Mem i (waiting (b.queue s))
    → IsFresh s i b
    → IsValidBook (set_order b s i o)
set_order-fresh ask i o b v n m ask = (
  assign-IsQueue ask i o (b.orders ask) (b.queue ask) (avoid n) (v ask).0,
  assign-IsStops ask i o (b.orders ask) (b.stops ask) (avoid m) (v ask).1,
)
set_order-fresh ask i o b v n m bid = v bid
set_order-fresh bid i o b v n m ask = v ask
set_order-fresh bid i o b v n m bid = (
  assign-IsQueue bid i o (b.orders bid) (b.queue bid) (avoid n) (v bid).0,
  assign-IsStops bid i o (b.orders bid) (b.stops bid) (avoid m) (v bid).1,
)

set_order-rank :
    {World : Type 0} (s : Side) (i : ℕ) (o : Order) (b : Book World)
    → IsValidBook b
    → rank o ≡ rank (b.orders s i)
    → IsValidBook (set_order b s i o)
set_order-rank ask i o b v e ask =
    let same = assign-rank i o (b.orders ask) e in
    (
      rank-IsQueue ask (b.orders ask) _ same (b.queue ask) (v ask).0,
      rank-IsStops ask (b.orders ask) _ same (b.stops ask) (v ask).1,
    )
set_order-rank ask i o b v e bid = v bid
set_order-rank bid i o b v e ask = v ask
set_order-rank bid i o b v e bid =
    let same = assign-rank i o (b.orders bid) e in
    (
      rank-IsQueue bid (b.orders bid) _ same (b.queue bid) (v bid).0,
      rank-IsStops bid (b.orders bid) _ same (b.stops bid) (v bid).1,
    )

module _ (x : Exchange) (laws : IsFill x) where
  -- AddAskOrder and AddBidOrder, with the round of the goroutine that they wake, return and keep the
  -- book valid; a stop-loss order must not wait already.
  pub submit-IsValidBook :
      (s : Side) (i : ℕ) (b : Book x.World)
      → IsValidBook b
      → IsFresh s i b
      → Returns IsValidBook (submit x s i b)
  unfolding submit add_order is_stop_loss
  submit-IsValidBook s i b v n = elim (Bool-cases (is_stop_loss (b.orders s i).order_type)) [
    | inl e ↦
        rw e
          (elim (Bool-cases
            (crosses s (x.current_price b.world (b.orders s i).stock_id) (b.orders s i).price)) [
              | inl hit ↦
                  let f = trigger_stoploss-Fired x i b v s e (avoid n) in
                  rw hit (
                    weaken-Returns (λ b' p. p.0)
                      (process-Processed x laws s i (trigger_stoploss x s i b) f.valid
                        (ap is_stop_loss f.active)))
              | inr miss ↦ rw miss (wait-IsValidBook s i b (process x s) v e n)
            ])
    | inr e ↦ rw e (weaken-Returns (λ b' p. p.0) (process-Processed x laws s i b v e))
  ]

  -- One event in the life of a book. `places` enters a new order in the table of a side, `updates`
  -- is a change of an order by the rest of the server, such as a cancellation or a partial fill, and
  -- `elsewhere` is any change of the rest of the server.
  pub data Step (b : Book x.World) : Book x.World → Type 0 where
    loads :
        (s : Side) (i : ℕ) {c : Book x.World} → IsFresh s i b → load_old s i b ≡ some c → Step b c
    submits :
        (s : Side) (i : ℕ) {c : Book x.World} → IsFresh s i b → submit x s i b ≡ some c → Step b c
    cancels : (s : Side) (i : ℕ) → Step b (cancel_order s i b)
    places :
        (s : Side) (i : ℕ) (o : Order)
        → ¬ Mem i (waiting (b.queue s))
        → IsFresh s i b
        → Step b (set_order b s i o)
    updates :
        (s : Side) (i : ℕ) (o : Order) → rank o ≡ rank (b.orders s i) → Step b (set_order b s i o)
    elsewhere : (w : x.World) → Step b (record b { world = w })

  pub data Reaches (b : Book x.World) : Book x.World → Type 0 where
    here : Reaches b b
    next : {c d : Book x.World} → Reaches b c → Step c d → Reaches b d

  Step-IsValidBook : {b c : Book x.World} → Step b c → IsValidBook b → IsValidBook c
  Step-IsValidBook {b} (loads s i n e) v = returned (load_old-IsValidBook s i b v n) e
  Step-IsValidBook {b} (submits s i n e) v = returned (submit-IsValidBook s i b v n) e
  Step-IsValidBook {b} (cancels s i) v = cancel_order-IsValidBook s i b v
  Step-IsValidBook {b} (places s i o n m) v = set_order-fresh s i o b v n m
  Step-IsValidBook {b} (updates s i o e) v = set_order-rank s i o b v e
  Step-IsValidBook (elsewhere w) v = v

  -- Every book that a new one reaches is valid: its four queues are heaps of their kinds, stop-loss
  -- orders wait in the stop-loss queues only and each once.
  pub Reaches-IsValidBook :
      (orders : Side → ℕ → Order) (d : Depth) (w : x.World) (b : Book x.World)
      → Reaches (new_book orders d w) b
      → IsValidBook b
  Reaches-IsValidBook orders d w b here = new_book-IsValidBook orders d w
  Reaches-IsValidBook orders d w b (next r e) =
      Step-IsValidBook e (Reaches-IsValidBook orders d w _ r)
