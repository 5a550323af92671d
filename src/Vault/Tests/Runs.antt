-- ===== src/Vault/Tests/Runs.antt =====
-- The entry points, run one after another.
use axionvera_network.Base.{◌≡◌, refl}
use axionvera_network.Base.Int.{pos, ◌+ℤ◌, ◌-ℤ◌, ◌*ℤ◌, ◌/ℤ◌}
use axionvera_network.Base.I128.{
  checked_add_u64, wrapping_add, checked_mul_u128, checked_div_u128, checked_sub_u64, checked_add,
  checked_sub, checked_mul, checked_div,
}
use axionvera_network.Vault.Outcome.{ok}
use axionvera_network.Vault.Storage
use axionvera_network.Vault.Rewards
use axionvera_network.Vault.Locks
use axionvera_network.Vault.Operations
use axionvera_network.Vault.Validation
use axionvera_network.Vault.Contract
use axionvera_network.Vault.Tests.{
  host, at, owner, alice, bob, deposit_token, reward_token, points, deployed, opened, deposited,
  locked, funded, settled, claimed, withdrawn, unlocked, proposed, accepted,
}

pub opened_runs :
    Contract.initialize host
      (at 1000)
      owner
      deposit_token
      reward_token
      100
      (pos 2_000_000)
      points
      deployed
    ≡ (ok tt, opened)
unfolding Storage.require_not_paused Storage.require_initialized
    Validation.validate_distinct_token_addresses Validation.validate_utilization_multipliers
    Contract.initialize
opened_runs = refl

pub deposited_runs :
    Contract.deposit host (at 1010) alice (pos 1_000_000) opened ≡ (ok tt, deposited)
unfolding Storage.require_not_paused Storage.initialize_state
    Validation.validate_distinct_token_addresses Validation.validate_utilization_multipliers
    Validation.validate_positive_amount Validation.with_non_reentrant Operations.store_deposit
    Locks.store_lock Contract.initialize Contract.deposit checked_add ◌+ℤ◌
deposited_runs = refl

pub locked_runs : Contract.lock host (at 1020) alice (pos 400_000) 60 deposited ≡ (ok tt, locked)
unfolding Storage.require_not_paused Storage.initialize_state Storage.set_total_deposits
    Validation.validate_distinct_token_addresses Validation.validate_utilization_multipliers
    Validation.validate_positive_amount Validation.with_non_reentrant Operations.store_deposit
    Locks.store_lock Contract.initialize Contract.deposit Contract.lock checked_add checked_sub
    checked_add_u64 ◌+ℤ◌ ◌-ℤ◌
locked_runs = refl

pub funded_runs :
    Contract.distribute_rewards host (at 1030) (pos 200_000) locked ≡ (ok (pos 160_000_000), funded)
unfolding Storage.require_not_paused Storage.initialize_state Storage.set_total_deposits
    Validation.validate_distinct_token_addresses Validation.validate_utilization_multipliers
    Validation.validate_positive_amount Validation.with_non_reentrant
    Rewards.checked_reward_index_increment Rewards.calculate_utilization_multiplier
    Rewards.select_multiplier Operations.store_deposit Operations.store_reward_distribution
    Operations.effective_reward Locks.store_lock Contract.initialize Contract.deposit Contract.lock
    Contract.distribute_rewards checked_add checked_sub checked_mul checked_div checked_mul_u128
    checked_div_u128 checked_add_u64 ◌+ℤ◌ ◌-ℤ◌ ◌*ℤ◌ ◌/ℤ◌
funded_runs = refl

pub settled_runs : Contract.claim_rewards host (at 1080) alice funded ≡ (ok (pos 0), settled)
unfolding Storage.require_not_paused Storage.initialize_state Storage.set_total_deposits
    Storage.set_reward_index Validation.validate_distinct_token_addresses
    Validation.validate_utilization_multipliers Validation.validate_positive_amount
    Validation.with_non_reentrant Rewards.credit_accrued Rewards.checked_accrued_rewards
    Rewards.checked_reward_index_increment Rewards.calculate_utilization_multiplier
    Rewards.select_multiplier Rewards.calculate_vested_rewards Operations.store_deposit
    Operations.store_reward_distribution Operations.store_claimable_rewards
    Operations.effective_reward Locks.store_lock Contract.initialize Contract.deposit Contract.lock
    Contract.distribute_rewards Contract.claim_rewards checked_add checked_sub checked_mul
    checked_div checked_mul_u128 checked_div_u128 checked_add_u64 checked_sub_u64 wrapping_add ◌+ℤ◌
    ◌-ℤ◌ ◌*ℤ◌ ◌/ℤ◌
settled_runs = refl

pub claimed_runs : Contract.claim_rewards host (at 1130) alice settled ≡ (ok (pos 80_000), claimed)
unfolding Storage.require_not_paused Storage.initialize_state Storage.set_total_deposits
    Storage.set_reward_index Storage.get_reward_token Validation.validate_distinct_token_addresses
    Validation.validate_utilization_multipliers Validation.validate_positive_amount
    Validation.with_non_reentrant Validation.ensure_contract_balance Rewards.credit_accrued
    Rewards.checked_accrued_rewards Rewards.checked_reward_index_increment
    Rewards.calculate_utilization_multiplier Rewards.select_multiplier
    Rewards.calculate_vested_rewards Operations.store_deposit Operations.store_reward_distribution
    Operations.store_claimable_rewards Operations.effective_reward Locks.store_lock
    Contract.initialize Contract.deposit Contract.lock Contract.distribute_rewards
    Contract.claim_rewards checked_add checked_sub checked_mul checked_div checked_mul_u128
    checked_div_u128 checked_add_u64 checked_sub_u64 wrapping_add ◌+ℤ◌ ◌-ℤ◌ ◌*ℤ◌ ◌/ℤ◌
claimed_runs = refl

pub withdrawn_runs :
    Contract.withdraw host (at 1140) alice (pos 700_000) settled ≡ (ok tt, withdrawn)
unfolding Storage.require_not_paused Storage.initialize_state Storage.set_total_deposits
    Storage.set_reward_index Validation.validate_distinct_token_addresses
    Validation.validate_utilization_multipliers Validation.validate_positive_amount
    Validation.with_non_reentrant Rewards.credit_accrued Rewards.checked_accrued_rewards
    Rewards.checked_reward_index_increment Rewards.calculate_utilization_multiplier
    Rewards.select_multiplier Rewards.calculate_vested_rewards Operations.store_deposit
    Operations.store_withdraw Operations.store_reward_distribution
    Operations.store_claimable_rewards Operations.effective_reward Locks.store_lock
    Locks.unlock_expired_locks Contract.initialize Contract.deposit Contract.lock
    Contract.distribute_rewards Contract.claim_rewards Contract.withdraw checked_add checked_sub
    checked_mul checked_div checked_mul_u128 checked_div_u128 checked_add_u64 checked_sub_u64
    wrapping_add ◌+ℤ◌ ◌-ℤ◌ ◌*ℤ◌ ◌/ℤ◌
withdrawn_runs = refl

pub unlocked_runs :
    Contract.unlock_expired host (at 1090) alice 10 locked ≡ (ok (pos 400_000), unlocked)
unfolding Storage.require_not_paused Storage.initialize_state Storage.set_total_deposits
    Validation.validate_distinct_token_addresses Validation.validate_utilization_multipliers
    Validation.validate_positive_amount Validation.with_non_reentrant Operations.store_deposit
    Locks.store_lock Locks.unlock_expired_locks Contract.initialize Contract.deposit Contract.lock
    checked_add checked_sub checked_add_u64 ◌+ℤ◌ ◌-ℤ◌ Contract.unlock_expired
unlocked_runs = refl

pub proposed_runs : Contract.propose_new_admin host (at 1015) bob deposited ≡ (ok tt, proposed)
unfolding Storage.require_not_paused Storage.require_initialized Storage.is_initialized
    Storage.initialize_state Storage.get_state Storage.get_admin Storage.get_user_position_unchecked
    Storage.get_liquid_balance_unchecked Storage.sum_locks Storage.set_user_position
    Storage.set_total_deposits Storage.set_liquid_balance Storage.enter_non_reentrant
    Storage.exit_non_reentrant Storage.set_pending_admin Validation.validate_positive_amount
    Validation.validate_distinct_token_addresses Validation.validate_utilization_multipliers
    Validation.check_sorted Validation.with_non_reentrant Rewards.accrue_position_rewards
    Operations.store_deposit Contract.initialize Contract.deposit Contract.propose_new_admin
    checked_add ◌+ℤ◌
proposed_runs = refl

pub accepted_runs : Contract.accept_admin host (at 1016) bob proposed ≡ (ok tt, accepted)
unfolding Storage.require_not_paused Storage.require_initialized Storage.is_initialized
    Storage.initialize_state Storage.get_state Storage.get_admin Storage.get_user_position_unchecked
    Storage.get_liquid_balance_unchecked Storage.sum_locks Storage.set_user_position
    Storage.set_total_deposits Storage.set_liquid_balance Storage.enter_non_reentrant
    Storage.exit_non_reentrant Storage.set_pending_admin Validation.validate_positive_amount
    Validation.validate_distinct_token_addresses Validation.validate_utilization_multipliers
    Validation.check_sorted Validation.with_non_reentrant Rewards.accrue_position_rewards
    Operations.store_deposit Contract.initialize Contract.deposit Contract.propose_new_admin
    checked_add ◌+ℤ◌ Contract.accept_admin Storage.get_pending_admin Storage.set_admin
    Storage.clear_pending_admin
accepted_runs = refl
