-- ===== src/Book/Processed.antt =====
-- processAsk and processBid end, on every valid book and whatever `fillOrderFn` answers.
use mathlib.Core.List.{Mem, not-mem-nil, mem-append_left}
use mathlib.Core.List.Perm
use dalal_street_server.Base.{
  ℕ, zero, suc, ◌+◌, ◌≤◌, ◌<◌, ◌≡◌, refl, ap, ◌∙◌, Bool, true, false, not, ◌&&◌, Option, none, some,
  List, [], arith, length, if◌then◌else◌, Returns, returns, bind-Returns, weaken-Returns,
  split-Returns,
}
use dalal_street_server.Base.Counts.{occurrences, occurrences-append, occurrences-Perm}
use dalal_street_server.Order.{Order, is_stop_loss}
use dalal_street_server.Pqueue.Defs.{Pqueue, waiting}
use dalal_street_server.Book.State.{Side, ask, bid, other, Exchange, Book, with_side}
use dalal_street_server.Book.Valid.{IsValidBook}
use dalal_street_server.Book.Steps.{
  with_queue-IsValidBook, with_side_self, with_side-other, push_queue-then, pop_queue-then,
}
use dalal_street_server.Book.Skip.{head-positive}
use dalal_street_server.Book.TopMatch.{
  TopMatch, unmatched, matched, get_top_matching-TopMatch, add_back-Restored,
}
use dalal_street_server.Book.MakeTrade.{IsFill, Kept, live, times, make_trade-Kept}
use dalal_street_server.Book.Process.{
  add_to_depth, pop_if, trade_with, round, process_loop, process_fuel, process,
}

module _ (x : Exchange) (laws : IsFill x) (s : Side) (id : ℕ) where
  trade_with-Kept :
      (s' : Side) (t : ℕ) (b : Book x.World)
      → IsValidBook b
      → Returns (λ (mine, theirs, b'). Kept b b') (trade_with x s' id t b)
  trade_with-Kept ask t b v = make_trade-Kept x laws id t b v true false
  trade_with-Kept bid t b v =
      bind-Returns (make_trade-Kept x laws t id b v false true) λ (a, d, b') k. returns k

  -- The book after a round: one order less waits on the opposite side if the match was done.
  record Round (b : Book x.World) (own : List ℕ) (theirs : Bool) (b' : Book x.World) : Type 0 where
    valid : IsValidBook b'
    active : is_stop_loss (b'.orders s id).order_type ≡ false
    total : live (other s) b' + (if theirs then 1 else 0) ≡ live (other s) b + length own
    stays : (j : ℕ) → times (other s) j b' ≤ times (other s) j b + occurrences j own

  pop_if-Kept :
      (theirs : Bool) (b : Book x.World)
      → IsValidBook b
      → 0 < (b.queue (other s)).elems_count
      → Returns
          (λ b'.
            IsValidBook b'
            × (b'.orders ≡ b.orders)
            × (live (other s) b' + (if theirs then 1 else 0) ≡ live (other s) b)
            × ((j : ℕ) → times (other s) j b' ≤ times (other s) j b))
          (pop_if theirs (other s) b)
  unfolding pop_if
  pop_if-Kept true b v h = pop_queue-then (other s) b _ v h λ i q qv o.
      let at : with_side (other s) q b.queue (other s) ≡ q = with_side_self (other s) q b.queue in
      returns (
        with_queue-IsValidBook (other s) q b v qv,
        refl,
        omega (arith, ap (λ (r : Pqueue). r.elems_count) at, o.count),
        λ j. omega (
          arith,
          ap (λ (r : Pqueue). occurrences j (waiting r)) at,
          occurrences-Perm j _ _ o.same,
        ),
      )
  pop_if-Kept false b v h = returns (v, refl, omega arith, λ j. omega arith)

  round-Round :
      (t : ℕ) (own : List ℕ) (b : Book x.World)
      → IsValidBook b
      → is_stop_loss (b.orders s id).order_type ≡ false
      → ((j : ℕ) → Mem j own → is_stop_loss (b.orders (other s) j).order_type ≡ false)
      → 0 < (b.queue (other s)).elems_count
      → Returns (λ (mine, theirs, b'). Round b own theirs b') (round x s id t own b)
  unfolding round
  round-Round t own b v a owned h = bind-Returns (trade_with-Kept s t b v) λ (mine, theirs, b1) k.
      bind-Returns (pop_if-Kept theirs b1 k.valid (omega (arith, k.grown (other s))))
        λ b2 (v2, o2, c2, st2).
          bind-Returns
            (add_back-Restored (other s) own b2 {Q = λ c. Round b own theirs c} v2
              (λ j m.
                ap (λ f. is_stop_loss (f (other s) j).order_type) o2
                ∙ k.active (other s) j (owned j m))
              λ q r.
                let at : with_side (other s) q b2.queue (other s) ≡ q =
                  with_side_self (other s) q b2.queue in
                record {
                  valid = with_queue-IsValidBook (other s) q b2 v2 r.queue;
                  active = ap (λ f. is_stop_loss (f s id).order_type) o2 ∙ k.active s id a;
                  total = omega (
                    arith,
                    ap (λ (z : Pqueue). z.elems_count) at,
                    r.count,
                    c2,
                    k.total (other s),
                  );
                  stays = λ j. omega (
                    arith,
                    ap (λ (z : Pqueue). occurrences j (waiting z)) at,
                    occurrences-Perm j _ _ r.same,
                    occurrences-append j own (waiting (b2.queue (other s))),
                    st2 j,
                    k.stays (other s) j,
                  );
                })
            λ c round. returns round

  -- What the loop needs of the match and of the orders that were set aside.
  record Found (b : Book x.World) (top : Option ℕ) (own : List ℕ) (c : Book x.World) : Type 0 where
    valid : IsValidBook c
    orders : c.orders ≡ b.orders
    owned : (j : ℕ) → Mem j own → is_stop_loss (b.orders (other s) j).order_type ≡ false
    nonempty : (t : ℕ) → top ≡ some t → 0 < (c.queue (other s)).elems_count
    total : live (other s) c + length own ≡ live (other s) b
    stays : (j : ℕ) → times (other s) j c + occurrences j own ≡ times (other s) j b

  TopMatch-Found :
      (b : Book x.World) (top : Option ℕ) (own : List ℕ) (c : Book x.World)
      → IsValidBook b
      → TopMatch s id b (top, own, c)
      → Found b top own c
  TopMatch-Found b top own c v (unmatched q m) =
      let at : with_side (other s) q b.queue (other s) ≡ q = with_side_self (other s) q b.queue in
      record {
        valid = with_queue-IsValidBook (other s) q b v m.queue;
        orders = refl;
        owned = λ j n. absurd (not-mem-nil n);
        nonempty = λ t e. cc;
        total = omega (arith, ap (λ (z : Pqueue). z.elems_count) at, m.count);
        stays = λ j. omega (
          arith,
          ap (λ (z : Pqueue). occurrences j (waiting z)) at,
          occurrences-Perm j _ _ m.same,
        );
      }
  TopMatch-Found b top own c v (matched t own' q m) =
      let at : with_side (other s) q b.queue (other s) ≡ q = with_side_self (other s) q b.queue in
      let size = ap (λ (z : Pqueue). z.elems_count) at in
      let some_wait = head-positive (b.orders (other s)) q t m.queue.valid m.shown in
      record {
        valid = with_queue-IsValidBook (other s) q b v m.queue;
        orders = refl;
        owned = λ j n. (v (other s)).0.active j ((Perm.mem_iff m.same).0 (mem-append_left _ n));
        nonempty = λ t' e. omega (arith, size, some_wait);
        total = omega (arith, size, m.count);
        stays = λ j. omega (
          arith,
          ap (λ (z : Pqueue). occurrences j (waiting z)) at,
          occurrences-Perm j _ _ m.same,
          occurrences-append j own' (waiting q),
        );
      }

  -- The book is valid, and no order waits more often on the other side than before, with the orders
  -- `own` that were set aside.
  abbrev pub Processed : Book x.World → List ℕ → Book x.World → Type 0
  Processed b own b' =
      IsValidBook b' × ((j : ℕ) → times (other s) j b' ≤ times (other s) j b + occurrences j own)

  process_loop-Processed :
      (fuel : ℕ) (top : Option ℕ) (own : List ℕ) (done : Bool) (b : Book x.World)
      → IsValidBook b
      → is_stop_loss (b.orders s id).order_type ≡ false
      → ((j : ℕ) → Mem j own → is_stop_loss (b.orders (other s) j).order_type ≡ false)
      → ((t : ℕ) → top ≡ some t → 0 < (b.queue (other s)).elems_count)
      → live (other s) b + length own < fuel
      → Returns (Processed b own) (process_loop x fuel s id top own done b)
  unfolding process_loop add_to_depth
  process_loop-Processed zero top own done b v a o n f = absurd (omega arith)
  process_loop-Processed (suc fuel) none own done b v a o n f =
      split-Returns done (λ e. returns (v, λ j. omega arith))
        λ e. push_queue-then s id b _ v a λ q qv p. returns (
          with_queue-IsValidBook s q b v qv,
          λ j.
              omega (
                arith,
                ap (λ (z : Pqueue). occurrences j (waiting z)) (with_side-other s q b.queue),
              ),
        )
  process_loop-Processed (suc fuel) (some t) own done b v a o n f =
      bind-Returns (round-Round t own b v a o (n t refl)) λ (mine, theirs, b1) r.
        let total = r.total in
        split-Returns (not mine && not theirs) (λ e. returns (r.valid, r.stays))
          λ e.
            split-Returns mine (λ e'. returns (r.valid, r.stays))
              λ e'. bind-Returns (get_top_matching-TopMatch s id b1 r.valid) λ (top, own', b2) tm.
                let found = TopMatch-Found b1 top own' b2 r.valid tm in
                let left = found.total in
                let stop_of : (g : Side → ℕ → Order) → Side → ℕ → Bool =
                  λ g s' j. is_stop_loss (g s' j).order_type in
                weaken-Returns
                  (λ b' (v', h). (v', λ j. omega (arith, r.stays j, found.stays j, h j)))
                  (process_loop-Processed fuel top own' mine b2 found.valid
                    (ap (λ g. stop_of g s id) found.orders ∙ r.active)
                    (λ j m. ap (λ g. stop_of g (other s) j) found.orders ∙ found.owned j m)
                    found.nonempty (ground (arith, total, left)))

  -- processAsk and processBid return on every valid book for an order that is no stop-loss order:
  -- no queue access panics and the loop ends whatever `fillOrderFn` answers. The book is valid
  -- again, and no order waits on the opposite side that did not wait there before, in the queue or as
  -- a stop-loss order, nor one more often than before.
  pub process-Processed :
      (b : Book x.World)
      → IsValidBook b
      → is_stop_loss (b.orders s id).order_type ≡ false
      → Returns (Processed b []) (process x s id b)
  unfolding process
  process-Processed b v a = bind-Returns (get_top_matching-TopMatch s id b v) λ (top, own, c) tm.
      let found = TopMatch-Found b top own c v tm in
      let total = found.total in
      weaken-Returns (λ b' (v', h). (v', λ j. omega (arith, found.stays j, h j)))
        (process_loop-Processed (process_fuel x s b) top own false c found.valid
          (ap (λ g. is_stop_loss (g s id).order_type) found.orders ∙ a)
          (λ j m. ap (λ g. is_stop_loss (g (other s) j).order_type) found.orders ∙ found.owned j m)
          found.nonempty (omega (arith, total)))
