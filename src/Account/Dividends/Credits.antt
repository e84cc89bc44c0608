-- ===== src/Account/Dividends/Credits.antt =====
-- What the payment of dividends does to the users.
use dalal_street_server.Base.{
  ℕ, ◌≡◌, sym, ap₂, ◌∙◌, false, Option, none, some, List, [], ◌∷◌, ◌==◌, All, arith,
}
use dalal_street_server.Base.Word.{add64, mul64}
use dalal_street_server.Account.State.{User, Transaction, Server, transaction_row, user_row}
use dalal_street_server.Account.Users.{Users}
use dalal_street_server.Account.Dividends.Pay.{UserDetails}
use dalal_street_server.Account.Holding.{Holding}

-- Every user stands in memory under the user's own id.
abbrev pub Keyed : {World : Type 0} → Users World → Type 0
Keyed m = (j : ℕ) (user : User) → m.user_locks j ≡ some user → user.id ≡ j

-- No user has two rows.
abbrev pub Distinct : List UserDetails → Type 0
Distinct [] = Unit
Distinct (d ∷ rows) = All (λ e. (d.user_id == e.user_id) ≡ false) rows × Distinct rows

abbrev or_else : Option User → Option User → Option User
or_else none found = found
or_else (some user) found = some user

module _ (s : Server) where
  -- How the database keeps the users: they stand under their own ids, and the save of a transaction
  -- or of another user leaves a user as it is.
  pub record KeepsUsers : Type 0 where
    pub keyed : (w : s.World) (id : ℕ) (user : User) → s.find_user w id ≡ some user → user.id ≡ id
    pub transactions :
        (w : s.World) (t : Transaction) (id : ℕ)
        → s.find_user (s.save w (transaction_row t)).0 id ≡ s.find_user w id
    pub users :
        (w : s.World) (user : User) (id : ℕ)
        → (user.id == id) ≡ false
        → s.find_user (s.save w (user_row user)).0 id ≡ s.find_user w id

  -- The user in memory, or in the database.
  abbrev pub current : Users s.World → ℕ → Option User
  current m id = or_else (m.user_locks id) (s.find_user m.world id)

  -- The users of the rows have got their dividends, the other ones in memory are as they were.
  pub record IsPaid (amount : ℕ) (rows : List UserDetails) (m m' : Users s.World) : Type 0 where
    pub paid :
        All
          (λ d.
            (user : User) × (current m d.user_id ≡ some user)
            × (m'.user_locks d.user_id
                ≡ some (record user { cash = add64 user.cash (mul64 amount d.stock_quantity) })))
          rows
    pub others :
        (id : ℕ) (user : User)
        → All (λ d. (d.user_id == id) ≡ false) rows
        → m.user_locks id ≡ some user
        → m'.user_locks id ≡ some user

  -- What one round does to the users and the locks.
  pub record Credits (id total : ℕ) (h h' : Holding s.World) : Type 0 where
    pub locks : (j : ℕ) → (id == j) ≡ false → h'.held j ≡ h.held j
    pub own :
        (user : User) × (current h.users id ≡ some user)
        × (h'.users.user_locks id ≡ some (record user { cash = add64 user.cash total }))
    pub memory : (j : ℕ) → (id == j) ≡ false → h'.users.user_locks j ≡ h.users.user_locks j
    pub found :
        (j : ℕ) → (id == j) ≡ false → s.find_user h'.users.world j ≡ s.find_user h.users.world j

  pub current-same :
      (m m' : Users s.World) (j : ℕ)
      → m'.user_locks j ≡ m.user_locks j
      → s.find_user m'.world j ≡ s.find_user m.world j
      → current m' j ≡ current m j
  current-same m m' j e f = ap₂ or_else e f

  later_paid :
      (amount id total : ℕ) (rows : List UserDetails) (h h' : Holding s.World) (m : Users s.World)
      → Credits id total h h'
      → All (λ e. (id == e.user_id) ≡ false) rows
      → All
          (λ d.
            (user : User) × (current h'.users d.user_id ≡ some user)
            × (m.user_locks d.user_id
                ≡ some (record user { cash = add64 user.cash (mul64 amount d.stock_quantity) })))
          rows
      → All
          (λ d.
            (user : User) × (current h.users d.user_id ≡ some user)
            × (m.user_locks d.user_id
                ≡ some (record user { cash = add64 user.cash (mul64 amount d.stock_quantity) })))
          rows
  later_paid amount id total [] h h' m c distinct all = tt
  later_paid amount id total (d ∷ rows) h h' m c (other, distinct) ((user, e, f), all) = (
    (
      user,
      sym (
            current-same h.users h'.users d.user_id (c.memory d.user_id other)
              (c.found d.user_id other))
          ∙ e,
      f,
    ),
    later_paid amount id total rows h h' m c distinct all,
  )

  flipped :
      (id : ℕ) (rows : List UserDetails)
      → All (λ e. (id == e.user_id) ≡ false) rows
      → All (λ e. (e.user_id == id) ≡ false) rows
  flipped id [] all = tt
  flipped id (d ∷ rows) (other, all) = (ground arith, flipped id rows all)

  -- A round and the rounds after it.
  pub Credits-IsPaid :
      (amount : ℕ) (d : UserDetails) (rows : List UserDetails) (h h' : Holding s.World)
      (m : Users s.World)
      → All (λ e. (d.user_id == e.user_id) ≡ false) rows
      → Credits d.user_id (mul64 amount d.stock_quantity) h h'
      → IsPaid amount rows h'.users m
      → IsPaid amount (d ∷ rows) h.users m
  Credits-IsPaid amount d rows h h' m distinct c p =
      let (user, e, f) = c.own in
      record {
        paid = (
          (user, e, p.others d.user_id _ (flipped d.user_id rows distinct) f),
          later_paid amount d.user_id _ rows h h' m c distinct p.paid,
        );
        others = λ id user' (other, all) k. p.others id user' all (c.memory id other ∙ k);
      }
