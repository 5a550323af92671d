-- ===== src/Vault/Previews.antt =====
-- contracts/vault-contract/src/storage.rs: the read-only previews.
use axionvera_network.Base.{ℕ}
use axionvera_network.Base.Int.{ℤ}
use axionvera_network.Vault.Outcome.{Outcome, ok, ◌>>=◌, ◌>>◌, map_ok}
use axionvera_network.Vault.State.{Address, Storage, UserRewardSnapshot}
use axionvera_network.Vault.Rewards.{
  accrue_position_rewards, accrue_asset_position_rewards, calculate_vested_rewards,
}
use axionvera_network.Vault.Storage.{require_initialized, get_state, get_user_position_unchecked}
use axionvera_network.Vault.Assets.{
  require_asset_supported, get_asset_reward_index, get_user_asset_position_unchecked,
}

unfoldable pub preview_user_rewards : ℕ → Storage → Address → Outcome UserRewardSnapshot
preview_user_rewards now s user = do
  require_initialized s
  state ← get_state s
  position ← get_user_position_unchecked s user
  accrued ← accrue_position_rewards now state position
  vested ← calculate_vested_rewards now accrued state.vesting_period
  ok (record {
    reward_index = accrued.reward_index;
    rewards = accrued.accrued_rewards;
    vested_rewards = vested;
  })

unfoldable pub pending_user_rewards_view : ℕ → Storage → Address → Outcome ℤ
unfolding preview_user_rewards
pending_user_rewards_view now s user =
    map_ok (λ snapshot. snapshot.rewards) (preview_user_rewards now s user)

unfoldable pub vested_user_rewards_view : ℕ → Storage → Address → Outcome ℤ
unfolding preview_user_rewards
vested_user_rewards_view now s user =
    map_ok (λ snapshot. snapshot.vested_rewards) (preview_user_rewards now s user)

unfoldable pub preview_user_asset_rewards :
    ℕ → Storage → Address → Address → Outcome UserRewardSnapshot
preview_user_asset_rewards now s user asset = do
  require_initialized s
  require_asset_supported s asset
  state ← get_state s
  asset_reward_index ← get_asset_reward_index s asset
  accrued ←
      accrue_asset_position_rewards now asset_reward_index
        (get_user_asset_position_unchecked s user asset)
  vested ← calculate_vested_rewards now accrued state.vesting_period
  ok (record {
    reward_index = accrued.reward_index;
    rewards = accrued.accrued_rewards;
    vested_rewards = vested;
  })

unfoldable pub pending_user_asset_rewards_view : ℕ → Storage → Address → Address → Outcome ℤ
unfolding preview_user_asset_rewards
pending_user_asset_rewards_view now s user asset =
    map_ok (λ snapshot. snapshot.rewards) (preview_user_asset_rewards now s user asset)

unfoldable pub vested_user_asset_rewards_view : ℕ → Storage → Address → Address → Outcome ℤ
unfolding preview_user_asset_rewards
vested_user_asset_rewards_view now s user asset =
    map_ok (λ snapshot. snapshot.vested_rewards) (preview_user_asset_rewards now s user asset)
