-- ===== src/Vault/Tests/ArithmeticExamples.antt =====
-- The theorems on the reward arithmetic, the error codes and the operations by asset, at numbers.
use axionvera_network.Base.{
  ◌+◌, ◌*◌, ◌≡◌, ◌&&◌, ◌==◌, if◌then◌else◌, refl, none, some, update, [], ◌∷◌, arith,
}
use axionvera_network.Base.Int.{pos, ◌+ℤ◌, ◌-ℤ◌, ◌*ℤ◌, ◌/ℤ◌}
use axionvera_network.Base.I128.{
  u32_bound, checked_add, checked_sub, checked_mul, checked_div, checked_mul_u128, checked_div_u128,
  checked_sub_u64,
}
use axionvera_network.Vault.Errors.{VaultError, code}
use axionvera_network.Vault.Outcome.{ok}
use axionvera_network.Vault.State.{Storage, UserPosition, MultiplierPoint, empty_storage}
use axionvera_network.Vault.Rewards.{
  calculate_utilization_multiplier, calculate_vested_rewards, accrue_asset_position_rewards,
  accrue_balance, credit_accrued, checked_accrued_rewards,
}
use axionvera_network.Vault.Assets.{
  require_asset_supported, contains_key, get_supported_assets, get_asset_reward_index,
  get_asset_total_deposits, get_user_asset_position_unchecked, store_asset_deposit,
  store_asset_withdraw,
}
use axionvera_network.Vault.Multipliers.{calculate_utilization_multiplier_wraps}
use axionvera_network.Vault.Tests.{alice, points}

abbrev low : MultiplierPoint
low = record { utilization_bps = 5000; multiplier_bps = 8000 }

abbrev high : MultiplierPoint
high = record { utilization_bps = 10000; multiplier_bps = 10000 }

calculate_utilization_multiplier_wraps_example :
    calculate_utilization_multiplier (pos (100 + u32_bound * 1000)) (pos 1000) points
    ≡ calculate_utilization_multiplier (pos 100) (pos 1000) points
calculate_utilization_multiplier_wraps_example =
    calculate_utilization_multiplier_wraps 100 1000 low (high ∷ []) (omega arith) (omega arith)
      (omega arith)

abbrev vesting : UserPosition
vesting = record {
  balance = pos 1_000_000;
  reward_index = pos 160_000_000;
  accrued_rewards = pos 160_000;
  last_reward_timestamp = 1080;
}

vested_1130 : calculate_vested_rewards 1130 vesting 100 ≡ ok (pos 80_000)
unfolding calculate_vested_rewards checked_mul_u128 checked_div_u128 checked_sub_u64
vested_1130 = refl

vested_1160 : calculate_vested_rewards 1160 vesting 100 ≡ ok (pos 128_000)
unfolding calculate_vested_rewards checked_mul_u128 checked_div_u128 checked_sub_u64
vested_1160 = refl

same_code : code VaultError.unauthorized ≡ code VaultError.unauthorized
same_code = refl

-- A storage that supports the asset 70, at index 4_000_000_000, and holds 30 of it for Alice.
abbrev stocked : Storage
stocked = record empty_storage {
  supported_assets = some (70 ∷ []);
  asset_total_deposits = update empty_storage.asset_total_deposits 70 (some (pos 100));
  asset_reward_index = update empty_storage.asset_reward_index 70 (some (pos 4_000_000_000));
  user_asset_balance = λ user asset. if user == alice && asset == 70 then some (pos 30) else none;
}

abbrev after_deposit : UserPosition
after_deposit = record {
  balance = pos 50;
  reward_index = pos 4_000_000_000;
  accrued_rewards = pos 120;
  last_reward_timestamp = 500;
}

abbrev after_withdraw : UserPosition
after_withdraw = record after_deposit { balance = pos 10 }

stocked_deposit : (store_asset_deposit 500 alice 70 (pos 20) stocked).0 ≡ ok after_deposit
unfolding store_asset_deposit require_asset_supported contains_key get_supported_assets
    get_user_asset_position_unchecked get_asset_reward_index get_asset_total_deposits
    accrue_asset_position_rewards accrue_balance credit_accrued checked_accrued_rewards checked_add
    checked_sub checked_mul checked_div ◌+ℤ◌ ◌-ℤ◌ ◌*ℤ◌ ◌/ℤ◌
stocked_deposit = refl

stocked_withdraw : (store_asset_withdraw 500 alice 70 (pos 20) stocked).0 ≡ ok after_withdraw
unfolding store_asset_withdraw require_asset_supported contains_key get_supported_assets
    get_user_asset_position_unchecked get_asset_reward_index get_asset_total_deposits
    accrue_asset_position_rewards accrue_balance credit_accrued checked_accrued_rewards checked_add
    checked_sub checked_mul checked_div ◌+ℤ◌ ◌-ℤ◌ ◌*ℤ◌ ◌/ℤ◌
stocked_withdraw = refl
