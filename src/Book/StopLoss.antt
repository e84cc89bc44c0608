-- ===== src/Book/StopLoss.antt =====
-- triggerStopLosses: the stop-loss orders that a trade price crosses, and no others, move to the
-- order queue of their side as active orders.
use mathlib.Core.List.{Mem, Nodup-cons, not-mem-nil, mem-cons, mem-cons_self, perm_middle}
use mathlib.Core.List.Perm
use mathlib.Core.Logic.Or
use native.Mathlib.Decide.{ℕ_discrete}
use mathlib.Core.Bool.{Bool-set}
use dalal_street_server.Base.{
  ℕ, zero, suc, ◌+◌, ◌≡◌, ◌≢◌, ◌<◌, refl, sym, ap, subst, ◌∙◌, [], ◌∷◌, ◌++◌, true, false, List,
  Option, none, some, Perm, arith, length, inl, inr, Returns, returns, split-Returns,
  weaken-Returns,
}
use dalal_street_server.Order.{Order, stop_loss_active, is_stop_loss, is_market}
use dalal_street_server.Order.Comparator.{comparator, bid_comparator, ask_comparator}
use dalal_street_server.Pqueue.Defs.{Pqueue, waiting, head}
use dalal_street_server.Pqueue.Valid.{rank}
use dalal_street_server.Pqueue.Push.{Pushed}
use dalal_street_server.Pqueue.Pop.{Popped, head-cases}
use dalal_street_server.Depth.{Depth, add_order}
use dalal_street_server.Book.State.{Side, ask, bid, other, is_ask, Exchange, Book, with_side}
use dalal_street_server.Book.Valid.{stop_kind, IsQueue, IsValidBook}
use dalal_street_server.Book.Steps.{
  with_queue, with_stops, with_stops-IsValidBook, with_queue-IsValidBook, with_side_self,
  with_side-other, push_queue-then, pop_stop-then,
}
use dalal_street_server.Book.Skip.{head-returns, head-positive}
use dalal_street_server.Book.TopMatch.{empty-waiting}
use dalal_street_server.Book.Fire.{Fired, trigger_stoploss-Fired}
use dalal_street_server.Book.Trade.{crosses, trigger_stoploss, trigger_side}

-- If the price does not cross the first stop-loss order, it crosses none that comes after it.
crosses-after :
    (s : Side) (price : ℕ) (first later : Order)
    → is_stop_loss first.order_type ≡ true
    → is_stop_loss later.order_type ≡ true
    → comparator (stop_kind s) (rank first) (rank later) ≡ false
    → crosses s price first.price ≡ false
    → crosses s price later.price ≡ false
unfolding comparator bid_comparator ask_comparator crosses rank is_stop_loss is_market
crosses-after ask price first later p q c m = ground arith
crosses-after bid price first later p q c m = ground arith

-- The orders of one side may have become active, the other side is as it was.
pub record Triggered {World : Type 0} (s : Side) (price : ℕ) (b : Book World) (fired : List ℕ)
    (b' : Book World) : Type 0 where
  pub valid : IsValidBook b'
  pub left : Perm (fired ++ waiting (b'.stops s)) (waiting (b.stops s))
  pub entered : Perm (waiting (b'.queue s)) (fired ++ waiting (b.queue s))
  pub stops_count : (b'.stops s).elems_count + length fired ≡ (b.stops s).elems_count
  pub queue_count : (b'.queue s).elems_count ≡ (b.queue s).elems_count + length fired
  pub crossed : (j : ℕ) → Mem j fired → crosses s price (b.orders s j).price ≡ true
  pub activated : (j : ℕ) → Mem j fired → is_market (b'.orders s j).order_type ≡ true
  pub rest : (j : ℕ) → Mem j (waiting (b'.stops s)) → crosses s price (b'.orders s j).price ≡ false
  pub kept : (j : ℕ) → is_stop_loss (b.orders s j).order_type ≡ false → b'.orders s j ≡ b.orders s j
  pub priced : (j : ℕ) → (b'.orders s j).price ≡ (b.orders s j).price
  pub opposite : b'.orders (other s) ≡ b.orders (other s)
  pub opposite_queue : b'.queue (other s) ≡ b.queue (other s)
  pub opposite_stops : b'.stops (other s) ≡ b.stops (other s)

module _ {World : Type 0} (s : Side) (price : ℕ) (b : Book World) (v : IsValidBook b) where
  none-Triggered :
      ((j : ℕ) → Mem j (waiting (b.stops s)) → crosses s price (b.orders s j).price ≡ false)
      → Triggered s price b [] b
  none-Triggered n = record {
    valid = v;
    left = Perm.rfl;
    entered = Perm.rfl;
    stops_count = omega arith;
    queue_count = omega arith;
    crossed = λ j m. absurd (not-mem-nil m);
    activated = λ j m. absurd (not-mem-nil m);
    rest = n;
    kept = λ j e. refl;
    priced = λ j. refl;
    opposite = refl;
    opposite_queue = refl;
    opposite_stops = refl;
  }

  top-uncrossed :
      (t : ℕ)
      → head (b.stops s) ≡ some (some t)
      → crosses s price (b.orders s t).price ≡ false
      → (j : ℕ) → Mem j (waiting (b.stops s))
      → crosses s price (b.orders s j).price ≡ false
  top-uncrossed t e c j m = elim (head-cases (b.orders s) (b.stops s) (v s).1.valid) [
    | inl (e', z) ↦ cc
    | inr (t', top, p) ↦
        let same : t' ≡ t = ground (arith, top.shown, e) in
        let behind =
          subst (λ k. comparator k (rank (b.orders s t')) (rank (b.orders s j)) ≡ false)
            (v s).1.sort (top.first j m) in
        crosses-after s price (b.orders s t') (b.orders s j) ((v s).1.inactive t' top.waits)
          ((v s).1.inactive j m) behind (rw same c)
  ]

-- One stop-loss order fires: it leaves the stop-loss queue, is made active, and is pushed.
record OneFired {World : Type 0} (s : Side) (i : ℕ) (b b' : Book World) : Type 0 where
  valid : IsValidBook b'
  left : Perm (i ∷ waiting (b'.stops s)) (waiting (b.stops s))
  entered : Perm (waiting (b'.queue s)) (i ∷ waiting (b.queue s))
  stops_count : suc (b'.stops s).elems_count ≡ (b.stops s).elems_count
  queue_count : (b'.queue s).elems_count ≡ suc (b.queue s).elems_count
  active : (b'.orders s i).order_type ≡ stop_loss_active
  kept : (j : ℕ) → is_stop_loss (b.orders s j).order_type ≡ false → b'.orders s j ≡ b.orders s j
  priced : (j : ℕ) → (b'.orders s j).price ≡ (b.orders s j).price
  opposite : b'.orders (other s) ≡ b.orders (other s)
  opposite_queue : b'.queue (other s) ≡ b.queue (other s)
  opposite_stops : b'.stops (other s) ≡ b.stops (other s)

chain-Triggered :
    {World : Type 0} (s : Side) (price i : ℕ) (b c b' : Book World) (fired : List ℕ)
    → crosses s price (b.orders s i).price ≡ true
    → OneFired s i b c
    → Triggered s price c fired b'
    → Triggered s price b (i ∷ fired) b'
unfolding is_stop_loss is_market
chain-Triggered s price i b c b' fired e o t = record {
  valid = t.valid;
  left = Perm.trans (Perm.cons i t.left) o.left;
  entered =
      Perm.trans t.entered
        (Perm.trans (Perm.append_left fired o.entered) (perm_middle fired (waiting (b.queue s))));
  stops_count = omega (arith, t.stops_count, o.stops_count);
  queue_count = omega (arith, t.queue_count, o.queue_count);
  crossed = λ j m.
      Or.elim (Bool-set _ _) (mem-cons.0 m) (λ same. rw same e)
        (λ n. ap (crosses s price) (sym (o.priced j)) ∙ t.crossed j n);
  activated = λ j m.
      Or.elim (Bool-set _ _) (mem-cons.0 m)
        (λ same. rw same (
          ap (λ (r : Order). is_market r.order_type) (t.kept i (ap is_stop_loss o.active))
          ∙ ap is_market o.active))
        (t.activated j);
  rest = t.rest;
  kept =
      λ j n. t.kept j (ap (λ (r : Order). is_stop_loss r.order_type) (o.kept j n) ∙ n) ∙ o.kept j n;
  priced = λ j. t.priced j ∙ o.priced j;
  opposite = t.opposite ∙ o.opposite;
  opposite_queue = t.opposite_queue ∙ o.opposite_queue;
  opposite_stops = t.opposite_stops ∙ o.opposite_stops;
}

module _ (x : Exchange) (s : Side) (price : ℕ) where
  -- The steps of one round, put together.
  fire-OneFired :
      (b : Book x.World) (i : ℕ) (q q2 : Pqueue) (d : Depth)
      → IsValidBook b
      → Popped (b.orders s) (b.stops s) i q
      → Fired s i (with_stops s q b) (trigger_stoploss x s i (with_stops s q b))
      → let b2 = trigger_stoploss x s i (with_stops s q b) in
        IsQueue s (b2.orders s) q2
        → Pushed (b2.orders s) (b2.queue s) i q2
        → OneFired s i b (record (with_queue s q2 b2) { depth = d })
  fire-OneFired b i q q2 d v o f qv p =
      let b2 = trigger_stoploss x s i (with_stops s q b) in
      let stops_at : b2.stops s ≡ q = ap (λ g. g s) f.stops ∙ with_side_self s q b.stops in
      let queue_was : b2.queue s ≡ b.queue s = ap (λ g. g s) f.queue in
      let queue_at : with_side s q2 b2.queue s ≡ q2 = with_side_self s q2 b2.queue in
      record {
        valid = with_queue-IsValidBook s q2 b2 f.valid qv;
        left = subst (λ z. Perm (i ∷ waiting z) (waiting (b.stops s))) (sym stops_at) o.same;
        entered =
            subst (λ z. Perm (waiting z) (i ∷ waiting (b.queue s))) (sym queue_at)
              (subst (λ z. Perm (waiting q2) (i ∷ waiting z)) queue_was p.same);
        stops_count = ap (λ (z : Pqueue). suc z.elems_count) stops_at ∙ sym o.count;
        queue_count = omega (
          arith,
          ap (λ (z : Pqueue). z.elems_count) queue_at,
          p.count,
          ap (λ (z : Pqueue). z.elems_count) queue_was,
        );
        active = f.active;
        kept = λ j n. f.kept j (λ same. ground (arith, n, same, waiting_stop b i q v o));
        priced = λ j. elim (ℕ_discrete j i) [
          | yes e ↦ rw e f.price
          | no ne ↦ ap (λ (r : Order). r.price) (f.kept j ne)
        ];
        opposite = f.opposite;
        opposite_queue = with_side-other s q2 b2.queue ∙ ap (λ g. g (other s)) f.queue;
        opposite_stops = ap (λ g. g (other s)) f.stops ∙ with_side-other s q b.stops;
      }
    where
      waiting_stop :
          (b : Book x.World) (i : ℕ) (q : Pqueue)
          → IsValidBook b
          → Popped (b.orders s) (b.stops s) i q
          → is_stop_loss (b.orders s i).order_type ≡ true
      waiting_stop b i q v o = (v s).1.inactive i ((Perm.mem_iff o.same).0 mem-cons_self)

  away :
      (b : Book x.World) (i : ℕ) (q : Pqueue)
      → IsValidBook b
      → Popped (b.orders s) (b.stops s) i q
      → (j : ℕ) → Mem j (waiting (with_side s q b.stops s))
      → j ≢ i
  away b i q v o j m e = (Nodup-cons.0 (Perm.nodup (Perm.symm o.same) (v s).1.once)).0 (
      subst (λ k. Mem k (waiting q)) e
        (subst (λ z. Mem j (waiting z)) (with_side_self s q b.stops) m))

  -- The loop for one side returns: it has fired exactly the orders that the price crosses.
  pub trigger_side-Triggered :
      (fuel : ℕ) (top : Option ℕ) (b : Book x.World)
      → IsValidBook b
      → head (b.stops s) ≡ some top
      → (b.stops s).elems_count < fuel
      → Returns
          (λ b'. (fired : List ℕ) × Triggered s price b fired b')
          (trigger_side x fuel s price top b)
  unfolding trigger_side is_stop_loss
  trigger_side-Triggered zero top b v e f = absurd (omega arith)
  trigger_side-Triggered (suc fuel) none b v e f = returns (
    [],
    none-Triggered s price b v λ j m.
        absurd
          (not-mem-nil (subst (Mem j) (empty-waiting (b.orders s) (b.stops s) (v s).1.valid e) m)),
  )
  trigger_side-Triggered (suc fuel) (some t) b v e f =
      split-Returns (crosses s price (b.orders s t).price)
        (λ hit.
          pop_stop-then s b _ v (head-positive (b.orders s) (b.stops s) t (v s).1.valid e)
            λ i q sv o.
              let b1 = with_stops s q b in
              let b2 = trigger_stoploss x s i b1 in
              let found = (v s).1.inactive i ((Perm.mem_iff o.same).0 mem-cons_self) in
              let fires =
                trigger_stoploss-Fired x i b1 (with_stops-IsValidBook s q b v sv) s found
                  (away b i q v o) in
              push_queue-then s i b2 _ fires.valid (ap is_stop_loss fires.active) λ q2 qv p.
                let b3 = with_queue s q2 b2 in
                let d =
                  add_order b3.depth true (is_ask s) (b3.orders s i).price
                    (b3.orders s i).stock_quantity in
                let b4 = record b3 { depth = d } in
                let one = fire-OneFired b i q q2 d v o fires qv p in
                let (h, he) = head-returns (b4.orders s) (b4.stops s) (one.valid s).1.valid in
                let same : t ≡ i = ground (arith, o.shown, e) in
                let crossed = subst (λ k. crosses s price (b.orders s k).price ≡ true) same hit in
                rw he (
                  weaken-Returns
                    (λ b' (fired, r).
                      (i ∷ fired, chain-Triggered s price i b b4 b' fired crossed one r))
                    (trigger_side-Triggered fuel h b4 one.valid he
                      (omega (arith, one.stops_count)))))
        (λ miss. returns ([], none-Triggered s price b v (top-uncrossed s price b v t e miss)))
