-- ===== src/Challenge/Rewarded.antt =====
-- What a claim of a reward comes to.
use dalal_street_server.Base.{
  ℕ, ◌≡◌, refl, sym, ◌∙◌, true, false, Option, none, some, ◌==◌, if◌then◌else◌, ◌>>=◌, ◌&&◌, arith,
  split_if,
}
use dalal_street_server.Account.State.{User, Server}
use dalal_street_server.Account.Users.{put}
use dalal_street_server.Account.Holding.{Holding, take_user, set_world, release}
use dalal_street_server.Account.Holding.Taken.{
  Taken, waiting, missing, taken, take_user-Taken, put_own,
}
use dalal_street_server.Account.Holding.Same.{SameLocks, SameUsers, OneChanged, released-SameLocks}
use dalal_street_server.Challenge.{
  MyRewardQueryData, ChallengeError, internal_server_error, ChallengeStore,
}
use dalal_street_server.Challenge.Reward.{
  RewardEnd, refused, rewarded, reward_user, refusal, save_reward, pay_reward, reward_found,
  reward_for, get_my_reward,
}

module _ (s : Server) (store : ChallengeStore s.World) (state_id user_id : ℕ)
    (h : Holding s.World) where
  -- The row that the query finds for the state: the user has completed the challenge and has not
  -- claimed the reward, and the challenge is not open.
  pub record IsDue (q : MyRewardQueryData) : Type 0 where
    pub row : store.reward_row (s.begin h.users.world) state_id ≡ some q
    pub owner : q.user_id ≡ user_id
    pub completed : q.is_completed ≡ true
    pub unclaimed : q.is_reward_claimed ≡ false
    pub over :
        (q.market_day == store.market_day (s.begin h.users.world)
          && store.is_open (s.begin h.users.world))
        ≡ false

  -- The claim does not return; refuses with users and locks as they were; pays a reward that is due;
  -- or gives an error of the database, and the reward is in the user's cash in memory all the same.
  pub data RewardOutcome : Option (RewardEnd × Holding s.World) → Type 0 where
    no_return : RewardOutcome none
    refuses :
        {e : ChallengeError} {h' : Holding s.World}
        → SameUsers h.users.user_locks h.held h'
        → SameLocks h.users.user_locks h.held h'
        → RewardOutcome (some (refused e, h'))
    pays :
        {h' : Holding s.World} (q : MyRewardQueryData) (u : User)
        → IsDue q
        → OneChanged h.users.user_locks h.held user_id (reward_user q.reward) u h'
        → SameLocks h.users.user_locks h.held h'
        → RewardOutcome (some (rewarded q.reward, h'))
    pays_unsaved :
        {h' : Holding s.World} (q : MyRewardQueryData) (u : User)
        → IsDue q
        → OneChanged h.users.user_locks h.held user_id (reward_user q.reward) u h'
        → SameLocks h.users.user_locks h.held h'
        → RewardOutcome (some (refused internal_server_error, h'))

  unchanged : {e : ChallengeError} (w : s.World) → RewardOutcome (some (refused e, set_world s w h))
  unchanged w = refuses (λ j u p. p) (λ j. refl)

  pay_reward-Outcome :
      (q : MyRewardQueryData) (user : User) (m : Holding s.World)
      → IsDue q
      → ((j : ℕ) (u : User) → h.users.user_locks j ≡ some u → m.users.user_locks j ≡ some u)
      → ((j : ℕ) → (user_id == j) ≡ false → m.users.user_locks j ≡ h.users.user_locks j)
      → m.users.user_locks user_id ≡ some user
      → h.held user_id ≡ false
      → ((j : ℕ) → m.held j ≡ (if user_id == j then true else h.held j))
      → RewardOutcome (some (pay_reward s store state_id user_id q.reward user m))
  unfolding pay_reward
  pay_reward-Outcome q user m due kept others own free locked =
      let user' = reward_user q.reward user in
      let (w, ok) = save_reward s store state_id user' m.users.world in
      let h' : Holding s.World =
        release s user_id (set_world s w (record m { users = put s m.users user_id user' })) in
      let one : OneChanged h.users.user_locks h.held user_id (reward_user q.reward) user h' =
        record {
          own = put_own s user_id user' m.users;
          prior = λ v e. let both : some v ≡ some user = sym (kept user_id v e) ∙ own in cc;
          others = λ j e. rw e (others j e);
        } in
      let same = released-SameLocks h.users.user_locks h.held s user_id m free locked in
      split_if (λ r. RewardOutcome (some (r, h'))) ok (λ _. pays q user due one same)
        (λ _. pays_unsaved q user due one same)

  reward_taken-Outcome :
      (q : MyRewardQueryData) (w : s.World) (o : Option (Option User × Holding s.World))
      → IsDue q
      → Taken s user_id (set_world s w h) o
      → RewardOutcome (o >>= reward_found s store state_id user_id q.reward)
  unfolding reward_found
  reward_taken-Outcome q w _ due (waiting held) = no_return
  reward_taken-Outcome q w _ due (missing _ _ _) = no_return
  reward_taken-Outcome q w _ due (taken {user} {m'} free own fetched) =
      pay_reward-Outcome q user
        (record { users = m'; held = λ j. if user_id == j then true else h.held j }) due
        fetched.kept fetched.others own free (λ j. refl)

  refusal-IsDue :
      (q : MyRewardQueryData)
      → store.reward_row (s.begin h.users.world) state_id ≡ some q
      → refusal s store user_id q (s.begin h.users.world) ≡ none
      → IsDue q
  unfolding refusal
  refusal-IsDue q row e = record {
    row = row;
    owner = ground arith;
    completed = ground arith;
    unclaimed = ground arith;
    over = ground arith;
  }

  reward_due-Outcome :
      (q : MyRewardQueryData) (error : Option ChallengeError)
      → store.reward_row (s.begin h.users.world) state_id ≡ some q
      → refusal s store user_id q (s.begin h.users.world) ≡ error
      → RewardOutcome (elim error [
        | some e ↦ some (refused e, set_world s (s.begin h.users.world) h)
        | none ↦
            take_user s user_id (set_world s (s.begin h.users.world) h)
            >>= reward_found s store state_id user_id q.reward
      ])
  reward_due-Outcome q none row e =
      reward_taken-Outcome q _ _ (refusal-IsDue q row e) (take_user-Taken s user_id _)
  reward_due-Outcome q (some error) row e = unchanged _

  reward_row-Outcome :
      (row : Option MyRewardQueryData)
      → store.reward_row (s.begin h.users.world) state_id ≡ row
      → RewardOutcome (elim row [
        | none ↦
            some (refused internal_server_error, set_world s (s.rollback (s.begin h.users.world)) h)
        | some q ↦ reward_for s store state_id user_id q (set_world s (s.begin h.users.world) h)
      ])
  unfolding reward_for
  reward_row-Outcome none e = unchanged _
  reward_row-Outcome (some q) e = reward_due-Outcome q _ e refl

  -- GetMyReward, unless it waits forever or panics, has one of these results. It refuses, and users in
  -- memory and held locks are as they were. Or the state is the user's, completed and not claimed, and
  -- the challenge's day is not the open one; then the reward is added to the cash of the user in
  -- memory, modulo 2 ^ 64, no other user is changed, and the held locks are the same: this is so when
  -- the reward is returned, and also when an error of the database is.
  pub get_my_reward-RewardOutcome : RewardOutcome (get_my_reward s store state_id user_id h)
  unfolding get_my_reward
  get_my_reward-RewardOutcome =
      split_if RewardOutcome (store.begins h.users.world) (λ _. reward_row-Outcome _ refl)
        (λ _. refuses (λ j u p. p) (λ j. refl))
