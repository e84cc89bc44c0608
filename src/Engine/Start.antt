-- ===== src/Engine/Start.antt =====
-- What loadOldOrders gives, and the calls that are passed to a book.
use mathlib.Core.List.{Mem}
use dalal_street_server.Base.{
  ℕ, ◌≡◌, ◌≢◌, refl, subst, sym, ◌∙◌, true, false, Bool, ◌||◌, Option, none, some, List, [], ◌∷◌,
  ◌==◌, inl, inr, Bool-cases, All, Returns, returns, bind-Returns, weaken-Returns, assign-cases,
  arith,
}
use dalal_street_server.Order.{Order}
use dalal_street_server.Pqueue.Defs.{waiting, new}
use dalal_street_server.Depth.{Depth}
use dalal_street_server.Book.State.{Side, ask, bid, Transaction, Exchange, Book}
use dalal_street_server.Book.Valid.{IsValidBook}
use dalal_street_server.Book.Steps.{with_side_self}
use dalal_street_server.Book.MakeTrade.{IsFill}
use dalal_street_server.Book.Session.{new_book, load_old_transactions}
use dalal_street_server.Book.Reach.{IsFresh, new_book-IsValidBook, submit-IsValidBook}
use dalal_street_server.Engine.Defs.{
  Engine, on_book, book_of, new_books, load_orders, load_old_orders, add,
}
use dalal_street_server.Engine.Loading.{
  Ids, with_id, IsLoaded, AllLoaded, HasBook, put_book-HasBook, on_book-AllLoaded,
}

abbrev pub no_ids : Ids
no_ids s = []

-- No id of the list is in `seen` or twice in the list.
abbrev pub Fresh : List ℕ → List ℕ → Type 0
Fresh seen [] = Unit
Fresh seen (i ∷ ids) = (¬ Mem i seen) × Fresh (i ∷ seen) ids

abbrev pub is_listed : ℕ → List ℕ → Bool
is_listed j [] = false
is_listed j (k ∷ ks) = k == j || is_listed j ks

with_id-other : (s s' : Side) (i : ℕ) (ids : Ids) → s' ≢ s → with_id s i ids s' ≡ ids s'
with_id-other ask ask i ids ne = absurd (ne refl)
with_id-other ask bid i ids ne = refl
with_id-other bid ask i ids ne = refl
with_id-other bid bid i ids ne = absurd (ne refl)

module _ {World : Type 0} where
  load_old_transactions-IsLoaded :
      (ids : Ids) (ts : List Transaction) (b : Book World)
      → IsLoaded ids b
      → IsLoaded ids (load_old_transactions ts b)
  unfolding load_old_transactions
  load_old_transactions-IsLoaded ids [] b l = l
  load_old_transactions-IsLoaded ids (t ∷ ts) b l =
      load_old_transactions-IsLoaded ids ts _ (record { valid = l.valid; waits = l.waits })

  new_book-IsLoaded :
      (orders : Side → ℕ → Order) (d : Depth) (w : World) → IsLoaded no_ids (new_book orders d w)
  unfolding new_book new
  new_book-IsLoaded orders d w = record {
    valid = new_book-IsValidBook orders d w;
    waits = λ s j m.
        elim s as (λ s. Mem j (waiting ((new_book orders d w).stops s)) → Mem j []) [
          | ask ↦ (λ k. k)
          | bid ↦ (λ k. k)
        ]
          m;
  }

  book_of-IsLoaded :
      (orders : Side → ℕ → Order) (d : Depth) (old : Option (List Transaction)) (w : World)
      → IsLoaded no_ids (book_of orders d old w)
  unfolding book_of
  book_of-IsLoaded orders d none w = new_book-IsLoaded orders d w
  book_of-IsLoaded orders d (some ts) w =
      load_old_transactions-IsLoaded no_ids ts _ (new_book-IsLoaded orders d w)

  module _ (orders : Side → ℕ → Order) (depths : ℕ → Depth)
      (old : ℕ → Option (List Transaction)) where
    new_books-AllLoaded :
        (stocks : List ℕ) (e : Engine World)
        → AllLoaded no_ids e
        → AllLoaded no_ids (new_books orders depths old stocks e)
    unfolding new_books
    new_books-AllLoaded [] e all = all
    new_books-AllLoaded (stock ∷ stocks) e all = new_books-AllLoaded stocks _ λ j b k.
        assign-cases (IsLoaded no_ids) (stock == j) _ b (e.order_books j)
          (book_of-IsLoaded orders (depths stock) (old stock) e.world) (all j b) k

    new_books-HasBook :
        (stocks : List ℕ) (e : Engine World) (j : ℕ)
        → HasBook e j
        → HasBook (new_books orders depths old stocks e) j
    unfolding new_books
    new_books-HasBook [] e j h = h
    new_books-HasBook (stock ∷ stocks) e j h =
        new_books-HasBook stocks _ j (put_book-HasBook stock j _ e h)

    listed-HasBook :
        (stocks : List ℕ) (e : Engine World) (j : ℕ)
        → is_listed j stocks ≡ true
        → HasBook (new_books orders depths old stocks e) j
    unfolding new_books
    listed-HasBook [] e j h = absurd (ground arith)
    listed-HasBook (stock ∷ stocks) e j h = elim (Bool-cases (stock == j)) [
      | inl own ↦ new_books-HasBook stocks _ j (λ k. ground (arith, own, k))
      | inr other ↦ listed-HasBook stocks _ j (rw other at h)
    ]

  still_known :
      (list : List ℕ) (stock : ℕ → ℕ) (e e' : Engine World)
      → ((j : ℕ) → HasBook e j → HasBook e' j)
      → All (λ i. HasBook e (stock i)) list
      → All (λ i. HasBook e' (stock i)) list
  still_known [] stock e e' more known = tt
  still_known (i ∷ list) stock e e' more (has, known) =
      (more (stock i) has, still_known list stock e e' more known)

  load_orders-AllLoaded :
      (orders : Side → ℕ → Order) (s : Side) (list : List ℕ) (ids : Ids) (e : Engine World)
      → AllLoaded ids e
      → All (λ i. HasBook e (orders s i).stock_id) list
      → Fresh (ids s) list
      → Returns
          (λ e'.
            (ids' : Ids) × AllLoaded ids' e'
            × ((j : ℕ) → HasBook e j → HasBook e' j)
            × ((s' : Side) → s' ≢ s → ids' s' ≡ ids s'))
          (load_orders orders s list e)
  unfolding load_orders
  load_orders-AllLoaded orders s [] ids e all known fresh =
      returns (ids, all, (λ j h. h), (λ s' ne. refl))
  load_orders-AllLoaded orders s (i ∷ list) ids e all (has, known) (new_id, fresh) =
      bind-Returns (on_book-AllLoaded s i (orders s i).stock_id ids e all has new_id)
        λ e' (all', more).
          weaken-Returns
            (λ e'' (ids', a, m, same).
              (ids', a, (λ j h. m j (more j h)), λ s' ne. same s' ne ∙ with_id-other s s' i ids ne))
            (load_orders-AllLoaded orders s list (with_id s i ids) e' all'
              (still_known list (λ i. (orders s i).stock_id) e e' more known)
              (subst (λ l. Fresh l list) (sym (with_side_self s (i ∷ ids s) ids)) fresh))

  -- Every order book is valid.
  abbrev pub AllValid : Engine World → Type 0
  AllValid e = (stock : ℕ) (b : Book World) → e.order_books stock ≡ some b → IsValidBook b

  module _ (orders : Side → ℕ → Order) (depths : ℕ → Depth)
      (old : ℕ → Option (List Transaction)) where
    listed-known :
        (stocks list : List ℕ) (stock : ℕ → ℕ) (e : Engine World)
        → All (λ i. is_listed (stock i) stocks ≡ true) list
        → All (λ i. HasBook (new_books orders depths old stocks e) (stock i)) list
    listed-known stocks [] stock e all = tt
    listed-known stocks (i ∷ list) stock e (h, all) = (
      listed-HasBook orders depths old stocks e (stock i) h,
      listed-known stocks list stock e all,
    )

    -- If every open order is of a stock in the database, and no id is read twice on a side, loadOldOrders
    -- returns with an order book for every stock, and all order books are valid.
    pub load_old_orders-AllValid :
        (stocks asks bids : List ℕ) (w : World)
        → All (λ i. is_listed (orders ask i).stock_id stocks ≡ true) asks
        → All (λ i. is_listed (orders bid i).stock_id stocks ≡ true) bids
        → Fresh [] asks
        → Fresh [] bids
        → Returns
            (λ e. AllValid e × ((j : ℕ) → is_listed j stocks ≡ true → HasBook e j))
            (load_old_orders orders depths old (some stocks) (some asks) (some bids) w)
    unfolding load_old_orders
    load_old_orders-AllValid stocks asks bids w known_asks known_bids new_asks new_bids =
        let start : Engine World = record { order_books = λ j. none; world = w } in
        let e = new_books orders depths old stocks start in
        let all = new_books-AllLoaded orders depths old stocks start (λ j b k. absurd (cc)) in
        bind-Returns
          (load_orders-AllLoaded orders ask asks no_ids e all
            (listed-known stocks asks (λ i. (orders ask i).stock_id) start known_asks) new_asks)
          λ e' (ids, all', more, same).
            weaken-Returns
              (λ e'' (ids', all'', more', _). (
                (λ j b k. (all'' j b k).valid),
                (λ j h. more' j (more j (listed-HasBook orders depths old stocks start j h))),
              ))
              (load_orders-AllLoaded orders bid bids ids e' all'
                (still_known bids (λ i. (orders bid i).stock_id) e e' more
                  (listed-known stocks bids (λ i. (orders bid i).stock_id) start known_bids))
                (subst (λ l. Fresh l bids) (sym (same bid (λ k. cc))) new_bids))

module _ (x : Exchange) (laws : IsFill x) where
  -- What a call leaves of the other order books.
  abbrev pub OnlyBook : ℕ → Engine x.World → Engine x.World → Type 0
  OnlyBook stock e e' = (j : ℕ) → (stock == j) ≡ false → e'.order_books j ≡ e.order_books j

  -- AddAskOrder and AddBidOrder of an engine whose order books are valid return for an order whose
  -- stock has a book, where a stop-loss order does not wait already: all order books are valid
  -- afterwards, and only that of the stock has changed.
  pub add-AllValid :
      (s : Side) (stock i : ℕ) (e : Engine x.World) (b : Book x.World)
      → AllValid e
      → e.order_books stock ≡ some b
      → IsFresh s i b
      → Returns (λ e'. AllValid e' × OnlyBook stock e e') (add x s stock i e)
  unfolding add on_book
  add-AllValid s stock i e b all found new_id = rw found (
      bind-Returns
        (submit-IsValidBook x laws s i (record b { world = e.world }) (all stock b found) new_id)
        (λ b' v. returns (
          (λ j c k. assign-cases IsValidBook (stock == j) b' c (e.order_books j) v (all j c) k),
          (λ j ne. rw ne refl),
        )))
