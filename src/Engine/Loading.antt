-- ===== src/Engine/Loading.antt =====
-- Loading the open orders gives valid order books.
use mathlib.Core.List.{Mem, mem-cons, mem-cons_of_mem}
use mathlib.Core.List.Perm
use mathlib.Core.Logic.Or
use dalal_street_server.Base.{
  ℕ, ◌≡◌, ◌≢◌, subst, none, some, List, ◌∷◌, ◌==◌, inl, inr, Bool-cases, Option-cases, Returns,
  returns, bind-Returns, assign-cases, split_if,
}
use dalal_street_server.Order.{is_stop_loss}
use dalal_street_server.Pqueue.Defs.{Pqueue, waiting}
use dalal_street_server.Pqueue.Push.{Pushed}
use dalal_street_server.Book.State.{Side, ask, bid, with_side, Book, push_stop}
use dalal_street_server.Book.Valid.{IsValidBook}
use dalal_street_server.Book.Steps.{
  with_queue-IsValidBook, with_stops-IsValidBook, push_queue-then, push_stop-then,
}
use dalal_street_server.Book.Session.{load_old}
use dalal_street_server.Book.Process.{add_to_depth}
use dalal_street_server.Book.Reach.{bind-some}
use dalal_street_server.Engine.Defs.{Engine, put_book, on_book}

-- The ids of the orders of each side that have been loaded.
abbrev pub Ids : Type 0
Ids = Side → List ℕ

abbrev pub with_id : Side → ℕ → Ids → Ids
with_id s i ids = with_side s (i ∷ ids s) ids

grown : (s s' : Side) (i j : ℕ) (ids : Ids) → Mem j (ids s') → Mem j (with_id s i ids s')
grown ask ask i j ids m = mem-cons_of_mem i m
grown ask bid i j ids m = m
grown bid ask i j ids m = m
grown bid bid i j ids m = mem-cons_of_mem i m

cons_more : (i j : ℕ) {xs ys : List ℕ} → (Mem j xs → Mem j ys) → Mem j (i ∷ xs) → Mem j (i ∷ ys)
cons_more i j k m = mem-cons.1 (Or.imp (λ e. e) k (mem-cons.0 m))

module _ {World : Type 0} where
  -- A valid book in whose stop-loss queues only loaded orders wait.
  pub record IsLoaded (ids : Ids) (b : Book World) : Type 0 where
    pub valid : IsValidBook b
    pub waits : (s : Side) (j : ℕ) → Mem j (waiting (b.stops s)) → Mem j (ids s)

  pushed_waits :
      (s s' : Side) (i j : ℕ) (q : Pqueue) (ids : Ids) (b : Book World)
      → ((s' : Side) (j : ℕ) → Mem j (waiting (b.stops s')) → Mem j (ids s'))
      → Pushed (b.orders s) (b.stops s) i q
      → Mem j (waiting (with_side s q b.stops s'))
      → Mem j (with_id s i ids s')
  pushed_waits ask ask i j q ids b waits p m =
      cons_more i j (waits ask j) ((Perm.mem_iff p.same).0 m)
  pushed_waits ask bid i j q ids b waits p m = waits bid j m
  pushed_waits bid ask i j q ids b waits p m = waits ask j m
  pushed_waits bid bid i j q ids b waits p m =
      cons_more i j (waits bid j) ((Perm.mem_iff p.same).0 m)

  load_old-IsLoaded :
      (s : Side) (i : ℕ) (ids : Ids) (b : Book World)
      → IsLoaded ids b
      → ¬ Mem i (ids s)
      → Returns (IsLoaded (with_id s i ids)) (load_old s i b)
  unfolding load_old add_to_depth
  load_old-IsLoaded s i ids b l new_id =
      elim (Bool-cases (is_stop_loss (b.orders s i).order_type)) [
        | inl e ↦ rw e (
            subst (Returns (IsLoaded (with_id s i ids))) (bind-some (push_stop s i b)) (
              push_stop-then s i b some l.valid e (λ m. new_id (l.waits s i m))
                λ q qv p. returns (record {
                  valid = with_stops-IsValidBook s q b l.valid qv;
                  waits = λ s' j m. pushed_waits s s' i j q ids b l.waits p m;
                })))
        | inr e ↦ rw e (
            push_queue-then s i b _ l.valid e λ q qv p. returns (record {
              valid = with_queue-IsValidBook s q b l.valid qv;
              waits = λ s' j m. grown s s' i j ids (l.waits s' j m);
            }))
      ]

  -- Every book of the engine.
  abbrev pub AllLoaded : Ids → Engine World → Type 0
  AllLoaded ids e = (stock : ℕ) (b : Book World) → e.order_books stock ≡ some b → IsLoaded ids b

  -- A stock that has a book.
  abbrev pub HasBook : Engine World → ℕ → Type 0
  HasBook e stock = e.order_books stock ≢ none

  more-IsLoaded :
      (s : Side) (i : ℕ) (ids : Ids) (b : Book World)
      → IsLoaded ids b
      → IsLoaded (with_id s i ids) b
  more-IsLoaded s i ids b l = record {
    valid = l.valid;
    waits = λ s' j m. grown s s' i j ids (l.waits s' j m);
  }

  pub put_book-HasBook :
      (stock j : ℕ) (b : Book World) (e : Engine World)
      → HasBook e j
      → HasBook (put_book stock b e) j
  put_book-HasBook stock j b e h = split_if (λ o. o ≢ none) (stock == j) (λ _ k. cc) (λ _. h)

  pub on_book-AllLoaded :
      (s : Side) (i stock : ℕ) (ids : Ids) (e : Engine World)
      → AllLoaded ids e
      → HasBook e stock
      → ¬ Mem i (ids s)
      → Returns
          (λ e'. AllLoaded (with_id s i ids) e' × ((j : ℕ) → HasBook e j → HasBook e' j))
          (on_book stock (load_old s i) e)
  unfolding on_book
  on_book-AllLoaded s i stock ids e all known new_id = elim (Option-cases (e.order_books stock)) [
    | inl missing ↦ absurd (known missing)
    | inr (b, found) ↦
        let l = all stock b found in
        rw found (
          bind-Returns
            (load_old-IsLoaded s i ids (record b { world = e.world })
              (record { valid = l.valid; waits = l.waits }) new_id)
            (λ b' l'. returns (
              (λ j c k.
                  assign-cases (IsLoaded (with_id s i ids)) (stock == j) b' c (e.order_books j) l'
                    (λ h. more-IsLoaded s i ids c (all j c h)) k),
              (λ j h. put_book-HasBook stock j b' e h),
            )))
  ]
