-- ===== src/Vault/State.antt =====
-- The data of contracts/vault-contract/src/storage.rs. `Lock` and `MultiplierPoint` are used there
-- and declared nowhere; they have the fields that the code reads and writes. Addresses are only
-- compared, so they are numbers.
use axionvera_network.Base.{ℕ, Bool, List, Option, none}
use axionvera_network.Base.Int.{ℤ}

abbrev pub Address : Type 0
Address = ℕ

pub record MultiplierPoint : Type 0 where
  pub utilization_bps : ℕ
  pub multiplier_bps : ℕ

pub record Lock : Type 0 where
  pub amount : ℤ
  pub unlock_timestamp : ℕ
  pub reward_multiplier : ℕ

pub record VaultState : Type 0 where
  pub admin : Address
  pub deposit_token : Address
  pub reward_token : Address
  pub total_deposits : ℤ
  pub reward_index : ℤ
  pub vesting_period : ℕ
  pub target_deposits : ℤ
  pub utilization_multipliers : List MultiplierPoint

pub record UserPosition : Type 0 where
  pub balance : ℤ
  pub reward_index : ℤ
  pub accrued_rewards : ℤ
  pub last_reward_timestamp : ℕ

pub record UserRewardSnapshot : Type 0 where
  pub reward_index : ℤ
  pub rewards : ℤ
  pub vested_rewards : ℤ

-- One entry for each `DataKey`, a missing one `none`. `UserBalance` is declared and no operation uses
-- it. The first group is instance storage, the
-- second persistent storage by user, the third by asset, the last by user and asset.
pub record Storage : Type 0 where
  pub initialized : Option Bool
  pub admin : Option Address
  pub pending_admin : Option Address
  pub deposit_token : Option Address
  pub reward_token : Option Address
  pub total_deposits : Option ℤ
  pub reward_index : Option ℤ
  pub vesting_period : Option ℕ
  pub target_deposits : Option ℤ
  pub utilization_multipliers : Option (List MultiplierPoint)
  pub reentrancy_guard : Option Bool
  pub is_paused : Option Bool
  pub user_balance : Address → Option ℤ
  pub user_liquid_balance : Address → Option ℤ
  pub user_locks : Address → Option (List Lock)
  pub user_reward_index : Address → Option ℤ
  pub user_accrued_rewards : Address → Option ℤ
  pub user_last_reward_timestamp : Address → Option ℕ
  pub supported_assets : Option (List Address)
  pub asset_total_deposits : Address → Option ℤ
  pub asset_reward_index : Address → Option ℤ
  pub user_asset_balance : Address → Address → Option ℤ
  pub user_asset_reward_index : Address → Address → Option ℤ
  pub user_asset_accrued_rewards : Address → Address → Option ℤ
  pub user_asset_last_reward_timestamp : Address → Address → Option ℕ

-- The storage of a contract that has just been deployed.
abbrev pub empty_storage : Storage
empty_storage = record {
  initialized = none;
  admin = none;
  pending_admin = none;
  deposit_token = none;
  reward_token = none;
  total_deposits = none;
  reward_index = none;
  vesting_period = none;
  target_deposits = none;
  utilization_multipliers = none;
  reentrancy_guard = none;
  is_paused = none;
  user_balance = λ u. none;
  user_liquid_balance = λ u. none;
  user_locks = λ u. none;
  user_reward_index = λ u. none;
  user_accrued_rewards = λ u. none;
  user_last_reward_timestamp = λ u. none;
  supported_assets = none;
  asset_total_deposits = λ a. none;
  asset_reward_index = λ a. none;
  user_asset_balance = λ u a. none;
  user_asset_reward_index = λ u a. none;
  user_asset_accrued_rewards = λ u a. none;
  user_asset_last_reward_timestamp = λ u a. none;
}
