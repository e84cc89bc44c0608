-- ===== src/Account/Blocking.antt =====
-- Users in memory and their blocking.
use dalal_street_server.Base.{
  ℕ, ◌+◌, ◌-◌, ◌≤◌, ◌<◌, ◌≡◌, refl, sym, ap₂, Bool, true, false, none, some, ==_refl, arith,
}
use dalal_street_server.Base.Word.{word_mod, half_word, add64, sub64, is_negative}
use dalal_street_server.Account.State.{User, Server}
use dalal_street_server.Account.Placing.Checks.{is_positive}
use dalal_street_server.Account.Users.{
  Users, zero_user, load_user, find_user, get_user_exclusively, new_block_count, blocked_user,
}

paid_back :
    (cash penalty : ℕ)
    → penalty ≤ cash
    → cash < word_mod
    → sub64 (sub64 cash penalty) 0 ≡ cash - penalty
unfolding sub64
paid_back cash penalty h k = omega arith

module _ (s : Server) where
  -- A user that the database does not have: the first call gives an error, and every call after it
  -- gives an empty user.
  pub unknown_user-found :
      (id : ℕ) (m : Users s.World)
      → m.user_locks id ≡ none
      → s.find_user m.world id ≡ none
      → let (r, m') = get_user_exclusively s id m in
        (r ≡ none) × ((get_user_exclusively s id m').0 ≡ some zero_user)
  unfolding get_user_exclusively find_user load_user
  unknown_user-found id m absent missing = rw (absent, missing) (refl, rw (==_refl id))

block_count-round_trip :
    (count : ℕ) → count + 1 < half_word → new_block_count false (new_block_count true count) ≡ count
unfolding new_block_count is_positive is_negative add64 sub64
block_count-round_trip count h = ground arith

-- A user who is blocked with a penalty that the cash covers, and is unblocked later without one, is
-- as before but for the cash, which is less by the penalty.
pub unblock-blocked_user :
    (penalty : ℕ) (user : User)
    → user.is_blocked ≡ false
    → user.block_count + 1 < half_word
    → penalty ≤ user.cash
    → user.cash < word_mod
    → blocked_user false 0 (blocked_user true penalty user)
      ≡ record user { cash = user.cash - penalty }
unblock-blocked_user penalty user free count covered small =
    ap₂ (λ (p : ℕ × Bool) n. record user { cash = p.0; is_blocked = p.1; block_count = n })
      (ap₂ (λ c b. (c, b)) (paid_back user.cash penalty covered small) (sym free))
      (block_count-round_trip user.block_count count)
