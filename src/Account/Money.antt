-- ===== src/Account/Money.antt =====
-- The cash that a fill moves, where nothing overflows.
use dalal_street_server.Base.{ℕ, ◌+◌, ◌-◌, ◌*◌, ◌^◌, ◌%◌, ◌≤◌, ◌<◌, ◌≡◌, ap, ◌∙◌, arith}
use dalal_street_server.Base.Word.{word_mod, add64, sub64, mul64, add64_exact, sub64_exact}
use dalal_street_server.Account.State.{User, Floats, Server}
use dalal_street_server.Account.Fill.{Parties, Terms, trade, total_of, cash_left, reserve_left}
use native.Mathlib.Nat.{mul_comm}

-- What a user owns: the free and the reserved cash.
abbrev pub wealth : User → ℕ
wealth u = u.cash + u.reserved_cash

-- A float64 holds every integer below 2 ^ 53 exactly, so the maximum with 0 gives it back.
abbrev pub IsExact : Floats → Type 0
IsExact f = (n : ℕ) → n < 2 ^ 53 → f.to_uint (f.max (f.of_uint 0) (f.of_int n)) ≡ n

mul64_exact : (a b : ℕ) → a * b < word_mod → mul64 a b ≡ a * b
unfolding mul64
mul64_exact a b h = omega arith

mul64_swap : (a b : ℕ) → mul64 a b ≡ mul64 b a
unfolding mul64
mul64_swap a b = ap (λ n. n % word_mod) (mul_comm a b)

paid_exact :
    (cash total reserved : ℕ)
    → total ≤ cash + reserved
    → cash + reserved < word_mod
    → total < word_mod
    → add64 (sub64 cash total) reserved ≡ cash + reserved - total
unfolding add64 sub64
paid_exact cash total reserved h k l = omega arith

balance :
    (asker total cash reserve reserved : ℕ)
    → total ≤ cash + reserved
    → reserved ≤ reserve
    → asker + total + (cash + reserved - total + (reserve - reserved)) ≡ asker + (cash + reserve)
balance asker total cash reserve reserved h k = omega arith

module _ (s : Server) (exact : IsExact s.floats) (t : Terms) (p : Parties)
    (affordable : t.price * t.quantity ≤ p.bidding_user.cash + t.reserved)
    (covered : t.reserved ≤ p.bidding_user.reserved_cash)
    (small : p.bidding_user.reserved_cash < 2 ^ 53)
    (bidder_fits : p.bidding_user.cash + t.reserved < word_mod)
    (asker_fits : p.asking_user.cash + t.price * t.quantity < word_mod) where
  fits : t.price * t.quantity < word_mod
  fits = omega arith

  asker_paid : (trade s t p).asking_user.cash ≡ p.asking_user.cash + t.price * t.quantity
  unfolding trade
  asker_paid =
      rw (mul64_swap t.quantity t.price, mul64_exact t.price t.quantity fits)
        (add64_exact _ _ asker_fits)

  bidder_left :
      (trade s t p).bidding_user.cash ≡ p.bidding_user.cash + t.reserved - t.price * t.quantity
  unfolding trade cash_left total_of
  bidder_left =
      rw (mul64_exact t.price t.quantity fits) (paid_exact _ _ _ affordable bidder_fits fits)

  fits64 : p.bidding_user.reserved_cash < word_mod
  fits64 = omega arith

  fits53 : p.bidding_user.reserved_cash - t.reserved < 2 ^ 53
  fits53 = omega arith

  reserve_exact :
      (trade s t p).bidding_user.reserved_cash ≡ p.bidding_user.reserved_cash - t.reserved
  unfolding trade reserve_left
  reserve_exact =
      ap (λ n. s.floats.to_uint (s.floats.max (s.floats.of_uint 0) (s.floats.of_int n)))
        (sub64_exact p.bidding_user.reserved_cash t.reserved fits64 covered)
      ∙ exact _ fits53

  -- A fill makes and destroys no money before the taxes: where the bidder can pay the price times
  -- the quantity from the free cash and the part of the reserve, the reserve covers that part and
  -- is below 2 ^ 53, and no sum overflows, the asker gets exactly the price times the quantity, and
  -- the two users own together what they owned.
  pub trade-wealth :
      ((trade s t p).asking_user.cash ≡ p.asking_user.cash + t.price * t.quantity)
      × ((trade s t p).asking_user.cash + wealth (trade s t p).bidding_user
          ≡ p.asking_user.cash + wealth p.bidding_user)
  trade-wealth = (
    asker_paid,
    rw (asker_paid, bidder_left, reserve_exact) (balance _ _ _ _ _ affordable covered),
  )
