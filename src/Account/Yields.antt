-- ===== src/Account/Yields.antt =====
-- Statements on the result of a database transaction.
use dalal_street_server.Base.{Option, none, some}
use dalal_street_server.Account.Tx.{Tx, ◌>>=◌, pure, get}

-- The result of a run of a transaction, if there is one, satisfies `P`.
pub data Yields {World A : Type 0} (P : A → Type 0) : World × Option A → Type 0 where
  stopped : {w : World} → Yields P (w, none)
  yielded : {w : World} {a : A} → P a → Yields P (w, some a)

continue-Yields :
    {World A B : Type 0} {Q : B → Type 0} (f : A → Tx World B) (w : World) (r : Option A)
    → ((a : A) → Yields Q (f a w))
    → Yields Q (elim r as (λ _. World × Option B) [ none ↦ (w, none) | some a ↦ f a w ])
continue-Yields f w none k = stopped
continue-Yields f w (some a) k = k a

pub bind-Yields :
    {World A B : Type 0} {Q : B → Type 0} (m : Tx World A) (f : A → Tx World B) (w : World)
    → ((a : A) (w' : World) → Yields Q (f a w'))
    → Yields Q ((m >>= f) w)
unfolding ◌>>=◌
bind-Yields m f w k = continue-Yields f (m w).0 (m w).1 (λ a. k a (m w).0)

continue_with-Yields :
    {World A B : Type 0} {P : A → Type 0} {Q : B → Type 0} (f : A → Tx World B)
    (r : World × Option A)
    → Yields P r
    → ((a : A) (w : World) → P a → Yields Q (f a w))
    → Yields Q (elim r.1 as (λ _. World × Option B) [ none ↦ (r.0, none) | some a ↦ f a r.0 ])
continue_with-Yields f _ stopped k = stopped
continue_with-Yields f _ (yielded p) k = k _ _ p

-- The same with what the first run yields.
pub then-Yields :
    {World A B : Type 0} {P : A → Type 0} {Q : B → Type 0} (m : Tx World A) (f : A → Tx World B)
    (w : World)
    → Yields P (m w)
    → ((a : A) (w' : World) → P a → Yields Q (f a w'))
    → Yields Q ((m >>= f) w)
unfolding ◌>>=◌
then-Yields m f w y k = continue_with-Yields f (m w) y k

pub get-Yields :
    {World A B : Type 0} {Q : B → Type 0} (g : World → A) (f : A → Tx World B) (w : World)
    → Yields Q (f (g w) w)
    → Yields Q ((get g >>= f) w)
unfolding ◌>>=◌ get
get-Yields g f w y = y

pub pure-Yields :
    {World B : Type 0} {Q : B → Type 0} (b : B) (w : World) → Q b → Yields Q (pure b w)
unfolding pure
pure-Yields b w q = yielded q

-- The run has a result, which satisfies `P`.
pub data Ends {World A : Type 0} (P : A → Type 0) : World × Option A → Type 0 where
  ends : {w : World} {a : A} → P a → Ends P (w, some a)

continue-Ends :
    {World A B : Type 0} {P : A → Type 0} {Q : B → Type 0} (f : A → Tx World B)
    (r : World × Option A)
    → Ends P r
    → ((a : A) (w : World) → P a → Ends Q (f a w))
    → Ends Q (elim r.1 as (λ _. World × Option B) [ none ↦ (r.0, none) | some a ↦ f a r.0 ])
continue-Ends f _ (ends p) k = k _ _ p

pub bind-Ends :
    {World A B : Type 0} {P : A → Type 0} {Q : B → Type 0} (m : Tx World A) (f : A → Tx World B)
    (w : World)
    → Ends P (m w)
    → ((a : A) (w' : World) → P a → Ends Q (f a w'))
    → Ends Q ((m >>= f) w)
unfolding ◌>>=◌
bind-Ends m f w h k = continue-Ends f (m w) h k

pub get-Ends :
    {World A B : Type 0} {Q : B → Type 0} (g : World → A) (f : A → Tx World B) (w : World)
    → Ends Q (f (g w) w)
    → Ends Q ((get g >>= f) w)
unfolding ◌>>=◌ get
get-Ends g f w y = y

pub pure-Ends : {World B : Type 0} {Q : B → Type 0} (b : B) (w : World) → Q b → Ends Q (pure b w)
unfolding pure
pure-Ends b w q = ends q
