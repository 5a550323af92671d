-- ===== src/Vault/Tests/StorageExamples.antt =====
-- The theorems on the storage operations, at the storages of one vault.
use axionvera_network.Base.{◌≡◌, refl, arith}
use axionvera_network.Base.Int.{pos, ◌+ℤ◌, ◌-ℤ◌, ◌*ℤ◌, ◌/ℤ◌}
use axionvera_network.Base.I128.{
  wrapping_add, checked_add_u64, checked_mul_u128, checked_div_u128, checked_sub_u64, checked_add,
  checked_sub, checked_mul, checked_div,
}
use axionvera_network.Vault.Outcome.{ok}
use axionvera_network.Vault.Storage
use axionvera_network.Vault.Rewards
use axionvera_network.Vault.Locks
use axionvera_network.Vault.Operations
use axionvera_network.Vault.Validation
use axionvera_network.Vault.Contract
use axionvera_network.Vault.Previews
use axionvera_network.Vault.Storage.{
  set_liquid_balance, set_total_deposits, set_user_position, set_user_locks, set_reward_index,
}
use axionvera_network.Vault.Vesting.{view-eq-claim, claim_twice}
use axionvera_network.Vault.Tests.{alice, settled, points}
use axionvera_network.Vault.Tests.Ledgers.{settings, settled_ledger, settled-Represents}

multiplier_runs :
    Rewards.calculate_utilization_multiplier (pos 1_000_000) (pos 2_000_000) points ≡ ok 8000
unfolding Rewards.calculate_utilization_multiplier Rewards.select_multiplier Rewards.last_multiplier
    checked_mul checked_div ◌*ℤ◌ ◌/ℤ◌
multiplier_runs = refl

claim_twice_example :
    ((Operations.store_claimable_rewards 1130 alice settled.storage).0 ≡ ok (pos 80_000))
    × ((Operations.store_claimable_rewards 1130 alice
          (Operations.store_claimable_rewards 1130 alice settled.storage).1).0
        ≡ ok (pos 40_000))
claim_twice_example =
    claim_twice settled.storage settings settled_ledger settled-Represents 1130 alice (omega arith)
      refl (ground arith) (omega arith) (omega arith)

claim_takes : (Operations.store_claimable_rewards 1130 alice settled.storage).0 ≡ ok (pos 80_000)
unfolding Storage.require_not_paused Storage.require_initialized Storage.is_initialized
    Storage.initialize_state Storage.get_state Storage.enter_non_reentrant
    Storage.exit_non_reentrant Storage.get_user_position_unchecked
    Storage.get_liquid_balance_unchecked Storage.get_user_locks_unchecked Storage.get_locked_balance
    Storage.sum_locks Storage.still_locked Storage.set_user_position Storage.set_total_deposits
    Storage.set_liquid_balance Storage.set_user_locks Storage.set_reward_index
    Storage.get_reward_token Storage.get_admin Validation.validate_distinct_token_addresses
    Validation.validate_utilization_multipliers Validation.check_sorted
    Validation.validate_positive_amount Validation.with_non_reentrant
    Validation.ensure_contract_balance Rewards.accrue_position_rewards Rewards.accrue_balance
    Rewards.credit_accrued Rewards.checked_accrued_rewards Rewards.checked_reward_index_increment
    Rewards.calculate_utilization_multiplier Rewards.select_multiplier Rewards.last_multiplier
    Rewards.calculate_vested_rewards Operations.store_deposit Operations.store_withdraw
    Operations.store_reward_distribution Operations.store_claimable_rewards
    Operations.effective_reward Locks.store_lock Locks.unlock_expired_locks Locks.unlock_locks
    Locks.unlock_loop Locks.store_unlocked Contract.initialize Contract.deposit Contract.lock
    Contract.distribute_rewards Contract.claim_rewards Contract.pay_rewards Contract.withdraw
    checked_add checked_sub checked_mul checked_div checked_mul_u128 checked_div_u128
    checked_add_u64 checked_sub_u64 wrapping_add ◌+ℤ◌ ◌-ℤ◌ ◌*ℤ◌ ◌/ℤ◌ Contract.unlock_expired
    Contract.propose_new_admin Contract.accept_admin Contract.pause_contract
    Contract.unpause_contract Contract.upgrade Storage.set_admin Storage.get_pending_admin
    Storage.set_pending_admin Storage.clear_pending_admin Storage.set_paused
claim_takes = refl

settled_initialized : Storage.require_initialized settled.storage ≡ ok tt
unfolding Storage.require_not_paused Storage.require_initialized Storage.is_initialized
    Storage.initialize_state Storage.get_state Storage.enter_non_reentrant
    Storage.exit_non_reentrant Storage.get_user_position_unchecked
    Storage.get_liquid_balance_unchecked Storage.get_user_locks_unchecked Storage.get_locked_balance
    Storage.sum_locks Storage.still_locked Storage.set_user_position Storage.set_total_deposits
    Storage.set_liquid_balance Storage.set_user_locks Storage.set_reward_index
    Storage.get_reward_token Storage.get_admin Validation.validate_distinct_token_addresses
    Validation.validate_utilization_multipliers Validation.check_sorted
    Validation.validate_positive_amount Validation.with_non_reentrant
    Validation.ensure_contract_balance Rewards.accrue_position_rewards Rewards.accrue_balance
    Rewards.credit_accrued Rewards.checked_accrued_rewards Rewards.checked_reward_index_increment
    Rewards.calculate_utilization_multiplier Rewards.select_multiplier Rewards.last_multiplier
    Rewards.calculate_vested_rewards Operations.store_deposit Operations.store_withdraw
    Operations.store_reward_distribution Operations.store_claimable_rewards
    Operations.effective_reward Locks.store_lock Locks.unlock_expired_locks Locks.unlock_locks
    Locks.unlock_loop Locks.store_unlocked Contract.initialize Contract.deposit Contract.lock
    Contract.distribute_rewards Contract.claim_rewards Contract.pay_rewards Contract.withdraw
    checked_add checked_sub checked_mul checked_div checked_mul_u128 checked_div_u128
    checked_add_u64 checked_sub_u64 wrapping_add ◌+ℤ◌ ◌-ℤ◌ ◌*ℤ◌ ◌/ℤ◌ Contract.unlock_expired
    Contract.propose_new_admin Contract.accept_admin Contract.pause_contract
    Contract.unpause_contract Contract.upgrade Storage.set_admin Storage.get_pending_admin
    Storage.set_pending_admin Storage.clear_pending_admin Storage.set_paused
settled_initialized = refl

view-eq-claim_example :
    Previews.vested_user_rewards_view 1130 settled.storage alice ≡ ok (pos 80_000)
view-eq-claim_example =
    view-eq-claim 1130 settled.storage alice (pos 80_000) settled_initialized claim_takes
