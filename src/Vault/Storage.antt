-- ===== src/Vault/Storage.antt =====
-- contracts/vault-contract/src/storage.rs: initialization, the reads and writes
-- of the global state, the reentrancy guard, and a user's position. Extending an entry's time to
-- live changes no value, and is left out.
use axionvera_network.Base.{
  ℕ, Bool, true, false, Option, none, some, List, [], ◌∷◌, ltb, if◌then◌else◌, update, get_or,
}
use axionvera_network.Base.Int.{ℤ, pos, eqb_ℤ}
use axionvera_network.Base.I128.{checked_add, wrapping_add}
use axionvera_network.Vault.Errors.{
  ArithmeticError, AuthorizationError, StateError, from_arithmetic_error, from_authorization_error,
  from_state_error,
}
use axionvera_network.Vault.Outcome.{Outcome, ok, ◌>>=◌, ◌>>◌, ok_or, fail_if, map_ok}
use axionvera_network.Vault.Action.{Action}
use axionvera_network.Vault.State.{
  Address, MultiplierPoint, Lock, VaultState, UserPosition, Storage,
}

unfoldable pub is_initialized : Storage → Bool
is_initialized s = get_or s.initialized false

unfoldable pub require_initialized : Storage → Outcome (Unit {0})
unfolding is_initialized from_state_error
require_initialized s =
    if is_initialized s then ok tt else Outcome.err (from_state_error StateError.not_initialized)

unfoldable pub require_not_paused : Storage → Outcome (Unit {0})
unfolding from_authorization_error
require_not_paused s =
    fail_if (get_or s.is_paused false) (from_authorization_error AuthorizationError.unauthorized)

unfoldable pub initialize_state :
    Address → Address → Address → ℕ → ℤ → List MultiplierPoint → Storage → Storage
initialize_state admin deposit_token reward_token vesting_period target_deposits multipliers s =
    record s {
      initialized = some true;
      admin = some admin;
      pending_admin = none;
      deposit_token = some deposit_token;
      reward_token = some reward_token;
      vesting_period = some vesting_period;
      total_deposits = some (pos 0);
      reward_index = some (pos 0);
      target_deposits = some target_deposits;
      utilization_multipliers = some multipliers;
      reentrancy_guard = some false;
      is_paused = some false;
    }

unfoldable pub get_state : Storage → Outcome VaultState
unfolding require_initialized from_state_error
get_state s = do
  require_initialized s
  admin ← ok_or s.admin (from_state_error StateError.invalid_state)
  deposit_token ← ok_or s.deposit_token (from_state_error StateError.invalid_state)
  reward_token ← ok_or s.reward_token (from_state_error StateError.invalid_state)
  ok (record {
    admin = admin;
    deposit_token = deposit_token;
    reward_token = reward_token;
    total_deposits = get_or s.total_deposits (pos 0);
    reward_index = get_or s.reward_index (pos 0);
    vesting_period = get_or s.vesting_period 0;
    target_deposits = get_or s.target_deposits (pos 0);
    utilization_multipliers = get_or s.utilization_multipliers [];
  })

unfoldable pub get_admin : Storage → Outcome Address
unfolding get_state
get_admin s = map_ok (λ state. state.admin) (get_state s)

unfoldable pub set_admin : Address → Storage → Storage
set_admin admin s = record s { admin = some admin }

unfoldable pub get_pending_admin : Storage → Outcome (Option Address)
unfolding require_initialized
get_pending_admin s = do require_initialized s; ok s.pending_admin

unfoldable pub set_pending_admin : Address → Storage → Storage
set_pending_admin pending_admin s = record s { pending_admin = some pending_admin }

unfoldable pub clear_pending_admin : Storage → Storage
clear_pending_admin s = record s { pending_admin = none }

unfoldable pub get_deposit_token : Storage → Outcome Address
unfolding get_state
get_deposit_token s = map_ok (λ state. state.deposit_token) (get_state s)

unfoldable pub get_reward_token : Storage → Outcome Address
unfolding get_state
get_reward_token s = map_ok (λ state. state.reward_token) (get_state s)

unfoldable pub get_total_deposits : Storage → Outcome ℤ
unfolding get_state
get_total_deposits s = map_ok (λ state. state.total_deposits) (get_state s)

unfoldable pub set_total_deposits : ℤ → Storage → Storage
set_total_deposits total s = record s { total_deposits = some total }

unfoldable pub get_reward_index : Storage → Outcome ℤ
unfolding get_state
get_reward_index s = map_ok (λ state. state.reward_index) (get_state s)

unfoldable pub set_reward_index : ℤ → Storage → Storage
set_reward_index index s = record s { reward_index = some index }

unfoldable pub get_vesting_period : Storage → Outcome ℕ
unfolding get_state
get_vesting_period s = map_ok (λ state. state.vesting_period) (get_state s)

unfoldable pub set_paused : Bool → Storage → Storage
set_paused paused s = record s { is_paused = some paused }

unfoldable pub set_target_deposits : ℤ → Storage → Storage
set_target_deposits new_target s = record s { target_deposits = some new_target }

unfoldable pub set_utilization_multipliers : List MultiplierPoint → Storage → Storage
set_utilization_multipliers multipliers s = record s { utilization_multipliers = some multipliers }

unfoldable pub enter_non_reentrant : Action Storage (Unit {0})
unfolding from_authorization_error
enter_non_reentrant s =
    if get_or s.reentrancy_guard false
    then (Outcome.err (from_authorization_error AuthorizationError.reentrancy_detected), s)
    else (ok tt, record s { reentrancy_guard = some true })

unfoldable pub exit_non_reentrant : Storage → Storage
exit_non_reentrant s = record s { reentrancy_guard = some false }

unfoldable pub get_liquid_balance_unchecked : Storage → Address → ℤ
get_liquid_balance_unchecked s user = get_or (s.user_liquid_balance user) (pos 0)

-- A value that a zero stands for is removed.
abbrev pub nonzero : ℤ → Option ℤ
nonzero z = if eqb_ℤ z (pos 0) then none else some z

unfoldable pub set_liquid_balance : Address → ℤ → Storage → Storage
set_liquid_balance user amount s = record s {
  user_liquid_balance = update s.user_liquid_balance user (nonzero amount);
}

unfoldable pub get_liquid_balance : Storage → Address → Outcome ℤ
unfolding require_initialized get_liquid_balance_unchecked
get_liquid_balance s user = do require_initialized s; ok (get_liquid_balance_unchecked s user)

unfoldable pub get_user_locks_unchecked : Storage → Address → List Lock
get_user_locks_unchecked s user = get_or (s.user_locks user) []

unfoldable pub set_user_locks : Address → List Lock → Storage → Storage
set_user_locks user locks s = record s { user_locks = update s.user_locks user (some locks) }

-- `.map(|lock| lock.amount).sum()`: the release profile leaves overflow checks off.
unfoldable pub sum_locks : ℤ → List Lock → ℤ
sum_locks sum [] = sum
sum_locks sum (lock ∷ locks) = sum_locks (wrapping_add sum lock.amount) locks

-- `.filter(|l| l.unlock_timestamp > now)`
unfoldable pub still_locked : ℕ → List Lock → List Lock
still_locked now [] = []
still_locked now (lock ∷ locks) =
    if ltb now lock.unlock_timestamp then lock ∷ still_locked now locks else still_locked now locks

unfoldable pub get_locked_balance : ℕ → Storage → Address → Outcome ℤ
unfolding require_initialized get_user_locks_unchecked sum_locks still_locked
get_locked_balance now s user = do
  require_initialized s
  ok (sum_locks (pos 0) (still_locked now (get_user_locks_unchecked s user)))

unfoldable pub get_user_position_unchecked : Storage → Address → Outcome UserPosition
unfolding get_liquid_balance_unchecked get_user_locks_unchecked sum_locks from_arithmetic_error
get_user_position_unchecked s user = do
  total_balance ←
      ok_or
        (checked_add (get_liquid_balance_unchecked s user)
          (sum_locks (pos 0) (get_user_locks_unchecked s user)))
        (from_arithmetic_error ArithmeticError.overflow)
  ok (record {
    balance = total_balance;
    reward_index = get_or (s.user_reward_index user) (pos 0);
    accrued_rewards = get_or (s.user_accrued_rewards user) (pos 0);
    last_reward_timestamp = get_or (s.user_last_reward_timestamp user) 0;
  })

unfoldable pub get_user_position : Storage → Address → Outcome UserPosition
unfolding require_initialized get_user_position_unchecked
get_user_position s user = do require_initialized s; get_user_position_unchecked s user

-- The balance is not written: it stands in the liquid balance and the locks.
unfoldable pub set_user_position : Address → UserPosition → Storage → Storage
set_user_position user position s = record s {
  user_reward_index = update s.user_reward_index user (nonzero position.reward_index);
  user_accrued_rewards = update s.user_accrued_rewards user (nonzero position.accrued_rewards);
  user_last_reward_timestamp =
      update s.user_last_reward_timestamp user (some position.last_reward_timestamp);
}

unfoldable pub get_user_balance : Storage → Address → Outcome ℤ
unfolding get_user_position
get_user_balance s user = map_ok (λ position. position.balance) (get_user_position s user)
