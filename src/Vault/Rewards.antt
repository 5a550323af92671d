-- ===== src/Vault/Rewards.antt =====
-- The reward arithmetic of contracts/vault-contract/src/storage.rs: the index increment, accrual,
-- vesting and the utilization multiplier. `now` is the ledger's timestamp.
use axionvera_network.Base.{ℕ, ◌||◌, List, [], ◌∷◌, leb, ◌==◌, if◌then◌else◌, get_or}
use axionvera_network.Base.Int.{ℤ, pos, leb_ℤ, ltb_ℤ, eqb_ℤ}
use axionvera_network.Base.I128.{
  checked_add, checked_sub, checked_mul, checked_div, as_u128, as_i128, as_u32, checked_mul_u128,
  checked_div_u128, checked_sub_u64,
}
use axionvera_network.Vault.Errors.{
  ArithmeticError, BalanceError, from_arithmetic_error, from_balance_error,
}
use axionvera_network.Vault.Outcome.{Outcome, ok, ◌>>=◌, ◌>>◌, ok_or, fail_if, map_ok}
use axionvera_network.Vault.State.{VaultState, UserPosition, MultiplierPoint}

abbrev pub precision_factor : ℕ
precision_factor = 1_000_000_000

-- `REWARD_INDEX_SCALE`
abbrev pub scale : ℤ
scale = pos precision_factor

unfoldable pub checked_reward_index_increment : ℤ → ℤ → Outcome ℤ
unfolding from_balance_error from_arithmetic_error
checked_reward_index_increment amount total_deposits = do
  fail_if (leb_ℤ total_deposits (pos 0)) (from_balance_error BalanceError.no_deposits)
  scaled ← ok_or (checked_mul amount scale) (from_arithmetic_error ArithmeticError.overflow)
  increment ←
      ok_or (checked_div scaled total_deposits)
        (from_arithmetic_error ArithmeticError.reward_calculation_failed)
  fail_if (leb_ℤ increment (pos 0)) (from_arithmetic_error ArithmeticError.zero_reward_increment)
  ok increment

unfoldable pub checked_accrued_rewards : ℤ → ℤ → Outcome ℤ
unfolding from_arithmetic_error
checked_accrued_rewards balance delta = do
  product ← ok_or (checked_mul balance delta) (from_arithmetic_error ArithmeticError.overflow)
  ok_or (checked_div product scale)
      (from_arithmetic_error ArithmeticError.reward_calculation_failed)

-- `multipliers.last().unwrap()`, on a list that is not empty.
unfoldable pub last_multiplier : MultiplierPoint → List MultiplierPoint → ℕ
last_multiplier p [] = p.multiplier_bps
last_multiplier p (q ∷ ps) = last_multiplier q ps

-- The loop over the points: the first that covers the utilization, else what was selected before.
unfoldable pub select_multiplier : ℕ → ℕ → List MultiplierPoint → ℕ
select_multiplier selected utilization [] = selected
select_multiplier selected utilization (p ∷ ps) =
    if leb utilization p.utilization_bps
    then p.multiplier_bps
    else select_multiplier selected utilization ps

unfoldable pub calculate_utilization_multiplier : ℤ → ℤ → List MultiplierPoint → Outcome ℕ
unfolding from_arithmetic_error last_multiplier
calculate_utilization_multiplier total_deposits target_deposits [] = ok 10000
calculate_utilization_multiplier total_deposits target_deposits (p ∷ ps) =
    if leb_ℤ target_deposits (pos 0) then ok 10000 else do
      product ←
          ok_or (checked_mul total_deposits (pos 10000))
            (from_arithmetic_error ArithmeticError.overflow)
      quotient ←
          ok_or (checked_div product target_deposits)
            (from_arithmetic_error ArithmeticError.reward_calculation_failed)
      ok (select_multiplier (last_multiplier p ps) (as_u32 quotient) (p ∷ ps))

unfoldable pub calculate_vested_rewards : ℕ → UserPosition → ℕ → Outcome ℤ
unfolding from_arithmetic_error
calculate_vested_rewards current_timestamp position vesting_period =
    if vesting_period == 0
    then ok position.accrued_rewards
    else if position.last_reward_timestamp == 0
    then ok (pos 0)
    else let time_elapsed =
        get_or (checked_sub_u64 current_timestamp position.last_reward_timestamp) 0 in
      if leb vesting_period time_elapsed then ok position.accrued_rewards else do
        product ←
            ok_or (checked_mul_u128 (as_u128 position.accrued_rewards) time_elapsed)
              (from_arithmetic_error ArithmeticError.overflow)
        vested ←
            ok_or (checked_div_u128 product vesting_period)
              (from_arithmetic_error ArithmeticError.reward_calculation_failed)
        ok (as_i128 vested)

-- `if accrued > 0 { … }`: the new rewards are added, and start to vest now.
unfoldable pub credit_accrued : ℕ → UserPosition → ℤ → Outcome UserPosition
unfolding from_arithmetic_error
credit_accrued now position accrued =
    if ltb_ℤ (pos 0) accrued
    then map_ok (λ sum. record position { accrued_rewards = sum; last_reward_timestamp = now })
        (ok_or (checked_add position.accrued_rewards accrued)
          (from_arithmetic_error ArithmeticError.overflow))
    else ok position

-- `if position.balance > 0 { … }`
unfoldable pub accrue_balance : ℕ → ℤ → UserPosition → Outcome UserPosition
unfolding from_arithmetic_error
accrue_balance now index position = do
  delta ←
      ok_or (checked_sub index position.reward_index)
        (from_arithmetic_error ArithmeticError.overflow)
  accrued ← checked_accrued_rewards position.balance delta
  credit_accrued now position accrued

-- `position.reward_index = index`
abbrev pub set_index : ℤ → UserPosition → UserPosition
set_index index position = record position { reward_index = index }

unfoldable pub accrue_position_rewards : ℕ → VaultState → UserPosition → Outcome UserPosition
unfolding accrue_balance
accrue_position_rewards now state position =
    if eqb_ℤ state.reward_index position.reward_index || eqb_ℤ position.balance (pos 0)
    then ok (set_index state.reward_index position)
    else map_ok (set_index state.reward_index) (
        if ltb_ℤ (pos 0) position.balance
        then accrue_balance now state.reward_index position
        else ok position)

unfoldable pub accrue_asset_position_rewards : ℕ → ℤ → UserPosition → Outcome UserPosition
unfolding accrue_balance
accrue_asset_position_rewards now asset_reward_index position =
    if eqb_ℤ asset_reward_index position.reward_index || eqb_ℤ position.balance (pos 0)
    then ok (set_index asset_reward_index position)
    else map_ok (set_index asset_reward_index) (
        if ltb_ℤ (pos 0) position.balance
        then accrue_balance now asset_reward_index position
        else ok position)
