-- ===== src/Account/Cancel.antt =====
-- CancelOrder of models/User.go, on the order that getAsk or getBid finds.
use dalal_street_server.Base.{
  ℕ, ◌≡◌, ◌≢◌, refl, true, false, Option, none, some, List, ◌==◌, if◌then◌else◌, arith, split_if,
}
use dalal_street_server.Order.{Order, unfulfilled}
use dalal_street_server.Book.State.{Side, ask, bid}
use dalal_street_server.Account.State.{User, Server}
use dalal_street_server.Account.Tx.{committed}
use dalal_street_server.Account.Close.{
  share, CloseError, already_closed_error, close, after_save, closed_now, refunded, CancelOutcome,
  unread, freed, save_ask_cancel_order_transaction, save_bid_cancel_order_transaction,
  save_bid-CancelOutcome,
}

pub data CancelError : Type 0 where
  no_user invalid_order_id not_saved not_committed : CancelError
  not_closed : CloseError → CancelError

-- The order is what its pointer holds afterwards.
pub record Cancelled (World : Type 0) : Type 0 where
  pub world : World
  pub user : User
  pub order : Option Order
  pub error : Option CancelError

module _ (s : Server) where
  abbrev restored : User → User → User
  restored old user = record user { cash = old.cash; reserved_cash = old.reserved_cash }

  -- After the commit, after the cancel transaction, and after Close; `old` is the user before.
  unfoldable pub commit_cancel :
      User → Order → User → s.World × Option (Unit {0}) → Cancelled s.World
  commit_cancel old o user (w, none) = record {
    world = s.rollback w;
    user = restored old user;
    order = some o;
    error = some not_committed;
  }
  commit_cancel old o user (w, some u) = record {
    world = w;
    user = user;
    order = some o;
    error = none;
  }

  unfoldable pub save_cancel : User → Order → s.World × User × Option (Unit {0}) → Cancelled s.World
  save_cancel old o (w, user, none) = record {
    world = s.rollback w;
    user = restored old user;
    order = some o;
    error = some not_saved;
  }
  save_cancel old o (w, user, some u) = commit_cancel old o user (committed s w)

  unfoldable pub cancel_transaction :
      Side → Order → User → s.World → s.World × User × Option (Unit {0})
  cancel_transaction ask o user w =
      let (w', r) = save_ask_cancel_order_transaction s o user w in (w', user, r)
  cancel_transaction bid o user w = save_bid_cancel_order_transaction s o user w

  unfoldable pub close_cancel :
      Side → User → s.World × Order × Option CloseError → Cancelled s.World
  close_cancel side old (w, o, some e) = record {
    world = s.rollback w;
    user = old;
    order = some o;
    error = some (not_closed e);
  }
  close_cancel side old (w, o, none) = save_cancel old o (cancel_transaction side o old w)

  abbrev invalid : User → Option Order → s.World → Cancelled s.World
  invalid user o w = record { world = w; user = user; order = o; error = some invalid_order_id }

  -- The part after `db.Begin`, which an invalid id does not roll back.
  unfoldable pub begin_cancel : Side → ℕ → User → Option Order → s.World → Cancelled s.World
  begin_cancel side user_id user none w = invalid user none w
  begin_cancel side user_id user (some o) w =
      if o.user_id == user_id
      then close_cancel side user (close s side o w)
      else invalid user (some o) w

  unfoldable pub cancel : Side → ℕ → User → Option Order → s.World → Cancelled s.World
  cancel side user_id user o w =
      if s.lock w user_id
      then begin_cancel side user_id user o (s.begin w)
      else record { world = w; user = user; order = o; error = some no_user }

  -- The user after the order `o` is cancelled: a bid frees the part of its reserved cash for the
  -- unfulfilled stocks, an ask no cash.
  abbrev pub IsFreed : Side → Order → User → User → Type 0
  IsFreed ask o user user' = user' ≡ user
  IsFreed bid o user user' =
      (w : s.World) × (cash : ℕ) × (s.reserved w o.id ≡ some cash)
      × (user' ≡ refunded (share s cash (unfulfilled o) o.stock_quantity) user)

  pub data CancelResult (side : Side) (user_id : ℕ) (user : User) (found : Option Order)
      : Cancelled s.World → Type 0 where
    refused :
        {r : Cancelled s.World}
        → r.error ≢ none
        → r.user ≡ user
        → CancelResult side user_id user found r
    accepted :
        {r : Cancelled s.World} (o : Order) (at : List ℕ)
        → found ≡ some o
        → (o.user_id == user_id) ≡ true
        → o.is_closed ≡ false
        → r.error ≡ none
        → r.order ≡ some (record o { is_closed = true; updated_at = at })
        → IsFreed side o user r.user
        → CancelResult side user_id user found r

  module _ (side : Side) (user_id : ℕ) (user : User) (o : Order)
      (mine : (o.user_id == user_id) ≡ true) (is_open : o.is_closed ≡ false) where
    abbrev Outcome : Cancelled s.World → Type 0
    Outcome = CancelResult side user_id user (some o)

    commit_cancel-Outcome :
        (at : List ℕ) (user' : User) (r : s.World × Option (Unit {0}))
        → IsFreed side o user user'
        → restored user user' ≡ user
        → Outcome (commit_cancel user (record o { is_closed = true; updated_at = at }) user' r)
    unfolding commit_cancel
    commit_cancel-Outcome at user' (w, none) h k = refused (ground arith) k
    commit_cancel-Outcome at user' (w, some u) h k = accepted o at refl mine is_open refl refl h

  module _ (user_id : ℕ) (user : User) (o : Order) (mine : (o.user_id == user_id) ≡ true)
      (is_open : o.is_closed ≡ false) where
    save_bid-Outcome :
        (at : List ℕ) (r : s.World × User × Option (Unit {0}))
        → CancelOutcome s (record o { is_closed = true; updated_at = at }) user r
        → CancelResult bid user_id user
            (some o)
            (save_cancel user (record o { is_closed = true; updated_at = at }) r)
    unfolding save_cancel unfulfilled
    save_bid-Outcome at _ unread = refused (ground arith) refl
    save_bid-Outcome at _ (freed w0 cash none e) = refused (ground arith) refl
    save_bid-Outcome at _ (freed w0 cash (some u) e) =
        commit_cancel-Outcome bid user_id user o mine is_open at _ _ (w0, cash, e, refl) refl

    save_ask-Outcome :
        (at : List ℕ) (w : s.World) (r : Option (Unit {0}))
        → CancelResult ask user_id user
            (some o)
            (save_cancel user (record o { is_closed = true; updated_at = at }) (w, user, r))
    unfolding save_cancel
    save_ask-Outcome at w none = refused (ground arith) refl
    save_ask-Outcome at w (some u) =
        commit_cancel-Outcome ask user_id user o mine is_open at user _ refl refl

    close_cancel-Outcome :
        (side : Side) (w : s.World) (r : s.World × Option ℕ)
        → CancelResult side user_id user
            (some o)
            (close_cancel side user (after_save s side (closed_now s w o) r))
    unfolding close_cancel after_save cancel_transaction
    close_cancel-Outcome side w (w', none) = refused (ground arith) refl
    close_cancel-Outcome ask w (w', some id) = save_ask-Outcome (s.clock w) _ _
    close_cancel-Outcome bid w (w', some id) =
        save_bid-Outcome (s.clock w) _ (save_bid-CancelOutcome s _ user _)

  already_closed-Outcome :
      (side : Side) (user_id : ℕ) (user : User) (o : Order) (w : s.World)
      → CancelResult side user_id user
          (some o)
          (close_cancel side user (w, o, some already_closed_error))
  unfolding close_cancel
  already_closed-Outcome side user_id user o w = refused (ground arith) refl

  owned-Outcome :
      (side : Side) (user_id : ℕ) (user : User) (o : Order) (w : s.World)
      → (o.user_id == user_id) ≡ true
      → CancelResult side user_id user (some o) (close_cancel side user (close s side o w))
  unfolding close
  owned-Outcome side user_id user o w mine =
      split_if (λ r. CancelResult side user_id user (some o) (close_cancel side user r)) o.is_closed
        (λ e. already_closed-Outcome side user_id user o w)
        (λ e. close_cancel-Outcome user_id user o mine e side w _)

  begin_cancel-Outcome :
      (side : Side) (user_id : ℕ) (user : User) (found : Option Order) (w : s.World)
      → CancelResult side user_id user found (begin_cancel side user_id user found w)
  unfolding begin_cancel
  begin_cancel-Outcome side user_id user none w = refused (ground arith) refl
  begin_cancel-Outcome side user_id user (some o) w =
      split_if (CancelResult side user_id user (some o)) (o.user_id == user_id)
        (owned-Outcome side user_id user o w) (λ _. refused (ground arith) refl)

  -- A cancellation ends in one of two ways. It fails with an error and leaves the user's cash and
  -- reserved cash as they were. Or it has no error, the order is found, is of this user and was
  -- open, and it is now closed with nothing else changed but the time of its update; a cancelled
  -- bid moves the part of its reserved cash for its unfulfilled stocks to the user's free cash, a
  -- cancelled ask leaves the user as it was.
  pub cancel-CancelResult :
      (side : Side) (user_id : ℕ) (user : User) (found : Option Order) (w : s.World)
      → CancelResult side user_id user found (cancel side user_id user found w)
  unfolding cancel
  cancel-CancelResult side user_id user found w =
      split_if (CancelResult side user_id user found) (s.lock w user_id)
        (λ _. begin_cancel-Outcome side user_id user found (s.begin w))
        (λ _. refused (ground arith) refl)
