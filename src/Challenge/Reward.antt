-- ===== src/Challenge/Reward.antt =====
-- GetMyReward. A result none is a call that waits forever or panics.
use dalal_street_server.Base.{ℕ, Bool, false, ◌&&◌, Option, none, some, ◌==◌, if◌then◌else◌, ◌>>=◌}
use dalal_street_server.Base.Word.{add64}
use dalal_street_server.Account.State.{User, Server, user_row}
use dalal_street_server.Account.Users.{put}
use dalal_street_server.Account.Holding.{Holding, take_user, set_world, release}
use dalal_street_server.Challenge.{
  MyRewardQueryData, ChallengeError, invalid_request, invalid_user, invalid_credential,
  internal_server_error, ChallengeStore,
}

pub data RewardEnd : Type 0 where
  refused : ChallengeError → RewardEnd
  rewarded : ℕ → RewardEnd

abbrev pub reward_user : ℕ → User → User
reward_user reward user = record user { cash = add64 user.cash reward }

module _ (s : Server) (store : ChallengeStore s.World) where
  -- The reasons to refuse, in their order.
  unfoldable pub refusal : ℕ → MyRewardQueryData → s.World → Option ChallengeError
  refusal user_id q w =
      if q.user_id == user_id
      then if q.market_day == store.market_day w && store.is_open w
        then some invalid_request
        else if q.is_completed
        then if q.is_reward_claimed then some invalid_request else none
        else some invalid_credential
      else some invalid_user

  -- The statements after the cash is changed. A commit that fails is not rolled back.
  unfoldable pub save_reward : ℕ → User → s.World → s.World × Bool
  save_reward state_id user w =
      let (w1, saved) = s.save w (user_row user) in
      let (w2, claimed) = store.set_claimed w1 state_id in
      elim saved [
        | none ↦ (s.rollback w1, false)
        | some _ ↦ if claimed then s.commit w2 else (s.rollback w2, false)
      ]

  -- The cash in memory stays changed, whatever fails.
  unfoldable pub pay_reward : ℕ → ℕ → ℕ → User → Holding s.World → RewardEnd × Holding s.World
  pay_reward state_id user_id reward user h =
      let user' = reward_user reward user in
      let (w, ok) = save_reward state_id user' h.users.world in
      let h' = set_world s w (record h { users = put s h.users user_id user' }) in
      (if ok then rewarded reward else refused internal_server_error, release s user_id h')

  -- If no user is found, a nil channel is closed, which panics.
  unfoldable pub reward_found :
      ℕ → ℕ → ℕ → Option User × Holding s.World → Option (RewardEnd × Holding s.World)
  reward_found state_id user_id reward (none, h) = none
  reward_found state_id user_id reward (some user, h) =
      some (pay_reward state_id user_id reward user h)

  unfoldable pub reward_for :
      ℕ → ℕ → MyRewardQueryData → Holding s.World → Option (RewardEnd × Holding s.World)
  reward_for state_id user_id q h =
      let paid = take_user s user_id h >>= reward_found state_id user_id q.reward in
      elim (refusal user_id q h.users.world) [ some e ↦ some (refused e, h) | none ↦ paid ]

  unfoldable pub get_my_reward : ℕ → ℕ → Holding s.World → Option (RewardEnd × Holding s.World)
  get_my_reward state_id user_id h =
      let h' = set_world s (s.begin h.users.world) h in
      if store.begins h.users.world
      then elim (store.reward_row h'.users.world state_id) [
        | none ↦ some (refused internal_server_error, set_world s (s.rollback h'.users.world) h')
        | some q ↦ reward_for state_id user_id q h'
      ]
      else some (refused internal_server_error, h)
