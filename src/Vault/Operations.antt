-- ===== src/Vault/Operations.antt =====
-- contracts/vault-contract/src/storage.rs: deposits,
-- withdrawals, reward distribution and claims.
use axionvera_network.Base.{ℕ, Option}
use axionvera_network.Base.Int.{ℤ, ltb_ℤ}
use axionvera_network.Base.I128.{
  checked_add, checked_sub, checked_mul_u128, checked_div_u128, as_u128, as_i128,
}
use axionvera_network.Vault.Errors.{
  ArithmeticError, BalanceError, from_arithmetic_error, from_balance_error,
}
use axionvera_network.Vault.Outcome
use axionvera_network.Vault.Outcome.{Outcome, ok_or, map_ok}
use axionvera_network.Vault.Action.{Action, ◌>>=◌, ◌>>◌, pure, lift, reads, gets, modify, raise_if}
use axionvera_network.Vault.State.{Address, VaultState, UserPosition, Storage}
use axionvera_network.Vault.Rewards.{
  accrue_position_rewards, calculate_vested_rewards, calculate_utilization_multiplier,
  checked_reward_index_increment,
}
use axionvera_network.Vault.Storage.{
  get_state, get_user_position_unchecked, set_user_position, get_liquid_balance_unchecked,
  set_liquid_balance, set_total_deposits, set_reward_index,
}
use axionvera_network.Vault.Locks.{unlock_expired_locks}

-- `.ok_or(ArithmeticError::Overflow)?`
abbrev pub or_overflow : {A : Type 0} → Option A → Action Storage A
unfolding from_arithmetic_error
or_overflow o = lift (ok_or o (from_arithmetic_error ArithmeticError.overflow))

unfoldable pub store_deposit : ℕ → Address → ℤ → Action Storage (VaultState × UserPosition)
unfolding from_arithmetic_error
store_deposit now user amount = do
  state ← reads get_state
  position ← reads (λ s. get_user_position_unchecked s user)
  accrued ← lift (accrue_position_rewards now state position)
  balance ← or_overflow (checked_add accrued.balance amount)
  let deposited : UserPosition = record accrued { balance = balance }
  liquid_balance ← gets (λ s. get_liquid_balance_unchecked s user)
  new_liquid_balance ← or_overflow (checked_add liquid_balance amount)
  next_total ← or_overflow (checked_add state.total_deposits amount)
  modify (set_liquid_balance user new_liquid_balance)
  modify (set_total_deposits next_total)
  modify (set_user_position user deposited)
  pure (record state { total_deposits = next_total }, deposited)

-- `WITHDRAW_UNLOCK_LIMIT`
abbrev pub withdraw_unlock_limit : ℕ
withdraw_unlock_limit = 5

unfoldable pub store_withdraw : ℕ → Address → ℤ → Action Storage (VaultState × UserPosition)
unfolding from_arithmetic_error from_balance_error
store_withdraw now user amount = do
  state ← reads get_state
  position ← reads (λ s. get_user_position_unchecked s user)
  accrued ← lift (accrue_position_rewards now state position)
  _unlocked ← unlock_expired_locks now user withdraw_unlock_limit
  liquid_balance ← gets (λ s. get_liquid_balance_unchecked s user)
  raise_if (ltb_ℤ liquid_balance amount) (from_balance_error BalanceError.insufficient_balance)
  balance ← or_overflow (checked_sub accrued.balance amount)
  let withdrawn : UserPosition = record accrued { balance = balance }
  new_liquid_balance ← or_overflow (checked_sub liquid_balance amount)
  next_total ← or_overflow (checked_sub state.total_deposits amount)
  modify (set_liquid_balance user new_liquid_balance)
  modify (set_total_deposits next_total)
  modify (set_user_position user withdrawn)
  pure (record state { total_deposits = next_total }, withdrawn)

-- `amount * multiplier / 10000`, in basis points.
unfoldable pub effective_reward : ℤ → ℕ → Outcome ℤ
unfolding from_arithmetic_error
effective_reward amount multiplier_bps =
    Outcome.◌>>=◌
      (ok_or (checked_mul_u128 (as_u128 amount) multiplier_bps)
        (from_arithmetic_error ArithmeticError.overflow))
      (λ product. map_ok as_i128 (
        ok_or (checked_div_u128 product 10000)
          (from_arithmetic_error ArithmeticError.reward_calculation_failed)))

unfoldable pub store_reward_distribution : ℤ → Action Storage VaultState
unfolding from_arithmetic_error
store_reward_distribution amount = do
  state ← reads get_state
  multiplier_bps ← lift (
      calculate_utilization_multiplier state.total_deposits state.target_deposits
        state.utilization_multipliers)
  effective_amount ← lift (effective_reward amount multiplier_bps)
  increment ← lift (checked_reward_index_increment effective_amount state.total_deposits)
  next_reward_index ← or_overflow (checked_add state.reward_index increment)
  modify (set_reward_index next_reward_index)
  pure (record state { reward_index = next_reward_index })

unfoldable pub store_claimable_rewards : ℕ → Address → Action Storage ℤ
unfolding from_arithmetic_error
store_claimable_rewards now user = do
  state ← reads get_state
  position ← reads (λ s. get_user_position_unchecked s user)
  accrued ← lift (accrue_position_rewards now state position)
  vested ← lift (calculate_vested_rewards now accrued state.vesting_period)
  remaining ← or_overflow (checked_sub accrued.accrued_rewards vested)
  modify (set_user_position user (record accrued { accrued_rewards = remaining }))
  pure vested
