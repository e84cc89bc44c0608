-- ===== src/Account/Tx.antt =====
-- A database transaction: a run on the world that gives an error or a result.
use dalal_street_server.Base.{Option, none, some, if◌then◌else◌}
use dalal_street_server.Account.State.{Server, Row}

abbrev pub Tx : Type 0 → Type 0 → Type 0
Tx World A = World → World × Option A

infixl 5 ◌>>=◌
unfoldable pub ◌>>=◌ : {World A B : Type 0} → Tx World A → (A → Tx World B) → Tx World B
(m >>= f) w = let (w', r) = m w in elim r [ none ↦ (w', none) | some a ↦ f a w' ]

unfoldable pub pure : {World A : Type 0} → A → Tx World A
pure a w = (w, some a)

unfoldable pub get : {World A : Type 0} → (World → A) → Tx World A
get f w = (w, some (f w))

-- `if err := tx.Commit().Error`
unfoldable pub committed : (s : Server) → Tx s.World (Unit {0})
committed s w = let (w', ok) = s.commit w in if ok then (w', some tt) else (w', none)

-- A save under `if transaction != nil`.
unfoldable pub save_some :
    {A : Type 0} → (s : Server) → (A → Row s.floats.Float) → Option A → Tx s.World (Unit {0})
save_some s row none = pure tt
save_some s row (some a) = (λ w. s.save w (row a)) >>= λ id. pure tt
