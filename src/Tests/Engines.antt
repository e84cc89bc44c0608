-- ===== src/Tests/Engines.antt =====
-- A matching engine with the sample's orders.
use mathlib.Core.List.{Mem, mem-cons, not-mem-nil}
use mathlib.Core.Logic.Or
use dalal_street_server.Base.{
  ℕ, ◌≡◌, ◌≢◌, refl, true, none, some, List, [], ◌∷◌, ◌==◌, if◌then◌else◌, Returns, assign-cases,
  arith,
}
use dalal_street_server.Depth.{empty}
use dalal_street_server.Book.Valid.{IsValidBook}
use dalal_street_server.Engine.Defs.{Engine, load_old_orders}
use dalal_street_server.Engine.Loading.{HasBook}
use dalal_street_server.Engine.Start.{is_listed, AllValid, load_old_orders-AllValid}
use dalal_street_server.Tests.Books.{loaded-IsValidBook}
use dalal_street_server.Tests.Sample.{table, loaded}

apart : (i j : ℕ) (xs : List ℕ) → i ≢ j → ¬ Mem i xs → ¬ Mem i (j ∷ xs)
apart i j xs ne n m = Or.elim (λ a b. absurd a) (mem-cons.0 m) ne n

load_old_orders-AllValid_example :
    Returns
      (λ (e : Engine ℕ). AllValid e × ((j : ℕ) → is_listed j (1 ∷ []) ≡ true → HasBook e j))
      (load_old_orders table
        (λ j. empty)
        (λ j. none)
        (some (1 ∷ []))
        (some (1 ∷ []))
        (some (1 ∷ 2 ∷ 3 ∷ []))
        100)
load_old_orders-AllValid_example =
    load_old_orders-AllValid table (λ j. empty) (λ j. none) (1 ∷ []) (1 ∷ []) (1 ∷ 2 ∷ 3 ∷ []) 100
      (refl, tt) (refl, (refl, (refl, tt))) (not-mem-nil, tt)
      (
        not-mem-nil,
        (
          apart 2 1 [] (omega arith) not-mem-nil,
          (apart 3 2 (1 ∷ []) (omega arith) (apart 3 1 [] (omega arith) not-mem-nil), tt),
        ),
      )

-- The book of stock 1 has the sample's bids.
abbrev engine : Engine ℕ
engine = record { order_books = λ j. if 1 == j then some loaded else none; world = 100 }

engine-AllValid : AllValid engine
engine-AllValid j b e =
    assign-cases IsValidBook (1 == j) loaded b none loaded-IsValidBook (λ k. absurd (cc)) e
