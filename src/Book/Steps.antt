-- ===== src/Book/Steps.antt =====
-- Rules for the steps on the queues of a valid book.
use mathlib.Core.List.{Mem, Nodup-cons, mem-cons, mem-cons_of_mem}
use mathlib.Core.List.Perm
use mathlib.Core.Path.{fun_ext}
use mathlib.Core.Bool.{Bool-set}
use mathlib.Core.Logic.Or
use dalal_street_server.Base.{
  ℕ, ◌≡◌, ◌<◌, refl, ap, ◌∙◌, true, false, Option, some, Returns, invert-Returns, ◌>>=◌,
}
use dalal_street_server.Order.{Order, is_stop_loss}
use dalal_street_server.Pqueue.Defs.{Pqueue, waiting}
use dalal_street_server.Pqueue.Push.{Pushed, push-Pushed}
use dalal_street_server.Pqueue.Pop.{Popped, pop-Popped}
use dalal_street_server.Book.State.{
  Side, ask, bid, other, with_side, Book, push_queue, pop_queue, push_stop, pop_stop,
}
use dalal_street_server.Book.Valid.{IsQueue, IsStops, IsValidBook}

pub with_side_self {ℓ} : {A : Type ℓ} (s : Side) (x : A) (f : Side → A) → with_side s x f s ≡ x
with_side_self ask x f = refl
with_side_self bid x f = refl

pub with_side-other {ℓ} :
    {A : Type ℓ} (s : Side) (x : A) (f : Side → A) → with_side s x f (other s) ≡ f (other s)
with_side-other ask x f = refl
with_side-other bid x f = refl

Pushed-IsQueue :
    (s : Side) (orders : ℕ → Order) (q r : Pqueue) (i : ℕ)
    → IsQueue s orders q
    → is_stop_loss (orders i).order_type ≡ false
    → Pushed orders q i r
    → IsQueue s orders r
Pushed-IsQueue s orders q r i v a p = record {
  valid = p.valid;
  sort = p.kept ∙ v.sort;
  active = λ j m.
      Or.elim (Bool-set _ _) (mem-cons.0 ((Perm.mem_iff p.same).0 m)) (λ e. rw e a) (v.active j);
}

Popped-IsQueue :
    (s : Side) (orders : ℕ → Order) (q r : Pqueue) (i : ℕ)
    → IsQueue s orders q
    → Popped orders q i r
    → IsQueue s orders r
Popped-IsQueue s orders q r i v p = record {
  valid = p.valid;
  sort = p.kept ∙ v.sort;
  active = λ j m. v.active j ((Perm.mem_iff p.same).0 (mem-cons_of_mem i m));
}

Popped-IsStops :
    (s : Side) (orders : ℕ → Order) (q r : Pqueue) (i : ℕ)
    → IsStops s orders q
    → Popped orders q i r
    → IsStops s orders r
Popped-IsStops s orders q r i v p = record {
  valid = p.valid;
  sort = p.kept ∙ v.sort;
  inactive = λ j m. v.inactive j ((Perm.mem_iff p.same).0 (mem-cons_of_mem i m));
  once = (Nodup-cons.0 (Perm.nodup (Perm.symm p.same) v.once)).1;
}

module _ {World : Type 0} where
  abbrev pub with_queue : Side → Pqueue → Book World → Book World
  with_queue s q b = record b { queue = with_side s q b.queue }

  abbrev pub with_stops : Side → Pqueue → Book World → Book World
  with_stops s q b = record b { stops = with_side s q b.stops }

  pub with_queue-IsValidBook :
      (s : Side) (q : Pqueue) (b : Book World)
      → IsValidBook b
      → IsQueue s (b.orders s) q
      → IsValidBook (with_queue s q b)
  with_queue-IsValidBook ask q b v h ask = (h, (v ask).1)
  with_queue-IsValidBook ask q b v h bid = v bid
  with_queue-IsValidBook bid q b v h ask = v ask
  with_queue-IsValidBook bid q b v h bid = (h, (v bid).1)

  pub with_stops-IsValidBook :
      (s : Side) (q : Pqueue) (b : Book World)
      → IsValidBook b
      → IsStops s (b.orders s) q
      → IsValidBook (with_stops s q b)
  with_stops-IsValidBook ask q b v h ask = ((v ask).0, h)
  with_stops-IsValidBook ask q b v h bid = v bid
  with_stops-IsValidBook bid q b v h ask = v ask
  with_stops-IsValidBook bid q b v h bid = ((v bid).0, h)

  module _ {κ λ'} {B : Type κ} {P : B → Type λ'} where
    -- After a push of an active order.
    pub push_queue-then :
        (s : Side) (i : ℕ) (b : Book World) (k : Book World → Option B)
        → IsValidBook b
        → is_stop_loss (b.orders s i).order_type ≡ false
        → ((q : Pqueue)
            → IsQueue s (b.orders s) q
            → Pushed (b.orders s) (b.queue s) i q
            → Returns P (k (with_queue s q b)))
        → Returns P (push_queue s i b >>= k)
    unfolding push_queue
    push_queue-then s i b k v a f =
        let (q, e, p) = invert-Returns (push-Pushed (b.orders s) (b.queue s) i (v s).0.valid) in
        rw e (f q (Pushed-IsQueue s (b.orders s) (b.queue s) q i (v s).0 a p) p)

    -- After a pop of a queue that is not empty.
    pub pop_queue-then :
        (s : Side) (b : Book World) (k : Option ℕ × Book World → Option B)
        → IsValidBook b
        → 0 < (b.queue s).elems_count
        → ((i : ℕ) (q : Pqueue)
            → IsQueue s (b.orders s) q
            → Popped (b.orders s) (b.queue s) i q
            → Returns P (k (some i, with_queue s q b)))
        → Returns P (pop_queue s b >>= k)
    unfolding pop_queue
    pop_queue-then s b k v h f =
        let ((r, q), e, found) =
          invert-Returns (pop-Popped (b.orders s) (b.queue s) (v s).0.valid h) in
        rw (e, found.0)
          (f _ q (Popped-IsQueue s (b.orders s) (b.queue s) q _ (v s).0 found.1) found.1)

    pub pop_stop-then :
        (s : Side) (b : Book World) (k : Option ℕ × Book World → Option B)
        → IsValidBook b
        → 0 < (b.stops s).elems_count
        → ((i : ℕ) (q : Pqueue)
            → IsStops s (b.orders s) q
            → Popped (b.orders s) (b.stops s) i q
            → Returns P (k (some i, with_stops s q b)))
        → Returns P (pop_stop s b >>= k)
    unfolding pop_stop
    pop_stop-then s b k v h f =
        let ((r, q), e, found) =
          invert-Returns (pop-Popped (b.orders s) (b.stops s) (v s).1.valid h) in
        rw (e, found.0)
          (f _ q (Popped-IsStops s (b.orders s) (b.stops s) q _ (v s).1 found.1) found.1)

with_side-with_side {ℓ} :
    {A : Type ℓ} (s : Side) (x y : A) (f : Side → A) (t : Side)
    → with_side s x (with_side s y f) t ≡ with_side s x f t
with_side-with_side ask x y f ask = refl
with_side-with_side ask x y f bid = refl
with_side-with_side bid x y f ask = refl
with_side-with_side bid x y f bid = refl

with_side-same {ℓ} : {A : Type ℓ} (s : Side) (f : Side → A) (t : Side) → with_side s (f s) f t ≡ f t
with_side-same ask f ask = refl
with_side-same ask f bid = refl
with_side-same bid f ask = refl
with_side-same bid f bid = refl

module _ {World : Type 0} (s : Side) (b : Book World) where
  pub with_queue-with_queue : (q p : Pqueue) → with_queue s q (with_queue s p b) ≡ with_queue s q b
  with_queue-with_queue q p =
      ap (λ f. record b { queue = f }) (fun_ext (with_side-with_side s q p b.queue))

  pub with_queue-same : with_queue s (b.queue s) b ≡ b
  with_queue-same = ap (λ f. record b { queue = f }) (fun_ext (with_side-same s b.queue))

Pushed-IsStops :
    (s : Side) (orders : ℕ → Order) (q r : Pqueue) (i : ℕ)
    → IsStops s orders q
    → is_stop_loss (orders i).order_type ≡ true
    → ¬ Mem i (waiting q)
    → Pushed orders q i r
    → IsStops s orders r
Pushed-IsStops s orders q r i v a n p = record {
  valid = p.valid;
  sort = p.kept ∙ v.sort;
  inactive = λ j m.
      Or.elim (Bool-set _ _) (mem-cons.0 ((Perm.mem_iff p.same).0 m)) (λ e. rw e a) (v.inactive j);
  once = Perm.nodup (Perm.symm p.same) (Nodup-cons.1 (n, v.once));
}

-- After a push of a stop-loss order that does not wait already.
pub push_stop-then {κ λ'} :
    {World : Type 0} {B : Type κ} {P : B → Type λ'} (s : Side) (i : ℕ) (b : Book World)
    (k : Book World → Option B)
    → IsValidBook b
    → is_stop_loss (b.orders s i).order_type ≡ true
    → ¬ Mem i (waiting (b.stops s))
    → ((q : Pqueue)
        → IsStops s (b.orders s) q
        → Pushed (b.orders s) (b.stops s) i q
        → Returns P (k (with_stops s q b)))
    → Returns P (push_stop s i b >>= k)
unfolding push_stop
push_stop-then s i b k v a n f =
    let (q, e, p) = invert-Returns (push-Pushed (b.orders s) (b.stops s) i (v s).1.valid) in
    rw e (f q (Pushed-IsStops s (b.orders s) (b.stops s) q i (v s).1 a n p) p)
