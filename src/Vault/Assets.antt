-- ===== src/Vault/Assets.antt =====
-- contracts/vault-contract/src/storage.rs: the accounts by asset. The map of
-- supported assets is read by its keys only, so it is the list of them.
use axionvera_network.Base.{
  ℕ, Bool, false, not, ◌||◌, some, List, [], ◌∷◌, ◌==◌, if◌then◌else◌, update, update₂, get_or,
}
use axionvera_network.Base.Int.{ℤ, pos, ltb_ℤ}
use axionvera_network.Base.I128.{checked_add, checked_sub}
use axionvera_network.Vault.Errors.{
  ValidationError, BalanceError, from_validation_error, from_balance_error, from_arithmetic_error,
}
use axionvera_network.Vault.Outcome
use axionvera_network.Vault.Outcome.{Outcome, ok, fail_if, map_ok}
use axionvera_network.Vault.Action.{Action, ◌>>=◌, ◌>>◌, pure, lift, reads, gets, modify, raise_if}
use axionvera_network.Vault.State.{Address, UserPosition, Storage}
use axionvera_network.Vault.Rewards.{
  accrue_asset_position_rewards, calculate_vested_rewards, checked_reward_index_increment,
}
use axionvera_network.Vault.Storage.{nonzero, get_state, require_initialized}
use axionvera_network.Vault.Operations.{or_overflow}

unfoldable pub contains_key : Address → List Address → Bool
contains_key asset [] = false
contains_key asset (a ∷ assets) = a == asset || contains_key asset assets

unfoldable pub get_supported_assets : Storage → List Address
get_supported_assets s = get_or s.supported_assets []

unfoldable pub is_asset_supported : Storage → Address → Bool
unfolding get_supported_assets contains_key
is_asset_supported s asset = contains_key asset (get_supported_assets s)

unfoldable pub add_supported_asset : Address → Storage → Storage
unfolding is_asset_supported
add_supported_asset asset s = if contains_key asset (get_supported_assets s) then s else record s {
  supported_assets = some (asset ∷ get_supported_assets s);
  asset_total_deposits = update s.asset_total_deposits asset (some (pos 0));
  asset_reward_index = update s.asset_reward_index asset (some (pos 0));
}

unfoldable pub require_asset_supported : Storage → Address → Outcome (Unit {0})
unfolding is_asset_supported from_validation_error
require_asset_supported s asset =
    fail_if (not (is_asset_supported s asset))
      (from_validation_error ValidationError.invalid_address)

unfoldable pub get_asset_total_deposits : Storage → Address → Outcome ℤ
unfolding require_asset_supported
get_asset_total_deposits s asset =
    Outcome.◌>>◌ (require_asset_supported s asset)
      (ok (get_or (s.asset_total_deposits asset) (pos 0)))

unfoldable pub set_asset_total_deposits : Address → ℤ → Storage → Storage
set_asset_total_deposits asset total s = record s {
  asset_total_deposits = update s.asset_total_deposits asset (some total);
}

unfoldable pub get_asset_reward_index : Storage → Address → Outcome ℤ
unfolding require_asset_supported
get_asset_reward_index s asset =
    Outcome.◌>>◌ (require_asset_supported s asset)
      (ok (get_or (s.asset_reward_index asset) (pos 0)))

unfoldable pub set_asset_reward_index : Address → ℤ → Storage → Storage
set_asset_reward_index asset index s = record s {
  asset_reward_index = update s.asset_reward_index asset (some index);
}

unfoldable pub get_user_asset_position_unchecked : Storage → Address → Address → UserPosition
get_user_asset_position_unchecked s user asset = record {
  balance = get_or (s.user_asset_balance user asset) (pos 0);
  reward_index = get_or (s.user_asset_reward_index user asset) (pos 0);
  accrued_rewards = get_or (s.user_asset_accrued_rewards user asset) (pos 0);
  last_reward_timestamp = get_or (s.user_asset_last_reward_timestamp user asset) 0;
}

unfoldable pub get_user_asset_position : Storage → Address → Address → Outcome UserPosition
unfolding require_initialized require_asset_supported get_user_asset_position_unchecked
get_user_asset_position s user asset = Outcome.◌>>◌ (require_initialized s) (
    Outcome.◌>>◌ (require_asset_supported s asset)
      (ok (get_user_asset_position_unchecked s user asset)))

unfoldable pub set_user_asset_position : Address → Address → UserPosition → Storage → Storage
set_user_asset_position user asset position s = record s {
  user_asset_balance = update₂ s.user_asset_balance user asset (nonzero position.balance);
  user_asset_reward_index =
      update₂ s.user_asset_reward_index user asset (nonzero position.reward_index);
  user_asset_accrued_rewards =
      update₂ s.user_asset_accrued_rewards user asset (nonzero position.accrued_rewards);
  user_asset_last_reward_timestamp =
      update₂ s.user_asset_last_reward_timestamp user asset (some position.last_reward_timestamp);
}

unfoldable pub get_user_asset_balance : Storage → Address → Address → Outcome ℤ
unfolding get_user_asset_position
get_user_asset_balance s user asset =
    map_ok (λ position. position.balance) (get_user_asset_position s user asset)

unfoldable pub store_asset_deposit : ℕ → Address → Address → ℤ → Action Storage UserPosition
unfolding from_arithmetic_error
store_asset_deposit now user asset amount = do
  reads (λ s. require_asset_supported s asset)
  position ← gets (λ s. get_user_asset_position_unchecked s user asset)
  asset_reward_index ← reads (λ s. get_asset_reward_index s asset)
  asset_total ← reads (λ s. get_asset_total_deposits s asset)
  accrued ← lift (accrue_asset_position_rewards now asset_reward_index position)
  balance ← or_overflow (checked_add accrued.balance amount)
  let deposited : UserPosition = record accrued { balance = balance }
  next_total ← or_overflow (checked_add asset_total amount)
  modify (set_asset_total_deposits asset next_total)
  modify (set_user_asset_position user asset deposited)
  pure deposited

unfoldable pub store_asset_withdraw : ℕ → Address → Address → ℤ → Action Storage UserPosition
unfolding from_arithmetic_error from_balance_error
store_asset_withdraw now user asset amount = do
  reads (λ s. require_asset_supported s asset)
  position ← gets (λ s. get_user_asset_position_unchecked s user asset)
  asset_reward_index ← reads (λ s. get_asset_reward_index s asset)
  asset_total ← reads (λ s. get_asset_total_deposits s asset)
  accrued ← lift (accrue_asset_position_rewards now asset_reward_index position)
  raise_if (ltb_ℤ accrued.balance amount) (from_balance_error BalanceError.insufficient_balance)
  balance ← or_overflow (checked_sub accrued.balance amount)
  let withdrawn : UserPosition = record accrued { balance = balance }
  next_total ← or_overflow (checked_sub asset_total amount)
  modify (set_asset_total_deposits asset next_total)
  modify (set_user_asset_position user asset withdrawn)
  pure withdrawn

unfoldable pub store_asset_reward_distribution : Address → ℤ → Action Storage ℤ
unfolding from_arithmetic_error
store_asset_reward_distribution asset amount = do
  reads (λ s. require_asset_supported s asset)
  asset_total ← reads (λ s. get_asset_total_deposits s asset)
  asset_reward_index ← reads (λ s. get_asset_reward_index s asset)
  increment ← lift (checked_reward_index_increment amount asset_total)
  next_reward_index ← or_overflow (checked_add asset_reward_index increment)
  modify (set_asset_reward_index asset next_reward_index)
  pure next_reward_index

unfoldable pub store_asset_claimable_rewards : ℕ → Address → Address → Action Storage ℤ
unfolding from_arithmetic_error
store_asset_claimable_rewards now user asset = do
  reads (λ s. require_asset_supported s asset)
  state ← reads get_state
  position ← gets (λ s. get_user_asset_position_unchecked s user asset)
  asset_reward_index ← reads (λ s. get_asset_reward_index s asset)
  accrued ← lift (accrue_asset_position_rewards now asset_reward_index position)
  vested ← lift (calculate_vested_rewards now accrued state.vesting_period)
  remaining ← or_overflow (checked_sub accrued.accrued_rewards vested)
  modify (set_user_asset_position user asset (record accrued { accrued_rewards = remaining }))
  pure vested
