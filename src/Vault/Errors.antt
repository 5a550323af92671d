-- ===== src/Vault/Errors.antt =====
-- contracts/vault-contract/src/errors.rs: the error enums, their numeric codes, categories and
-- messages, and the `From` conversions into `VaultError`.
use Prim.Native.String.{String}
use axionvera_network.Base.{ℕ}

pub data ErrorCategory : Type 0 where
  authorization balance math state validation : ErrorCategory

pub record ErrorInfo : Type 0 where
  pub category : ErrorCategory
  pub message : String

pub data StateError : Type 0 where
  already_initialized not_initialized invalid_state no_pending_admin : StateError

pub data ValidationError : Type 0 where
  invalid_amount negative_amount invalid_address invalid_token_configuration : ValidationError
  insufficient_reward_amount invalid_lock_duration : ValidationError
  invalid_utilization_parameters : ValidationError

pub data BalanceError : Type 0 where
  insufficient_balance insufficient_contract_balance no_deposits : BalanceError

pub data ArithmeticError : Type 0 where
  overflow reward_calculation_failed zero_reward_increment : ArithmeticError

pub data VestingError : Type 0 where
  rewards_not_vested : VestingError

pub data AuthorizationError : Type 0 where
  unauthorized reentrancy_detected upgrade_failed operation_limit_exceeded : AuthorizationError

pub data VaultError : Type 0 where
  already_initialized not_initialized unauthorized invalid_amount insufficient_balance : VaultError
  math_overflow no_deposits invalid_token_configuration insufficient_contract_balance : VaultError
  negative_amount invalid_address reward_calculation_failed reentrancy_detected : VaultError
  invalid_state zero_reward_increment no_pending_admin rewards_not_vested : VaultError
  insufficient_reward_amount invalid_lock_duration upgrade_failed : VaultError
  operation_limit_exceeded invalid_utilization_parameters : VaultError

-- The `u32` that the host reports.
unfoldable pub code : VaultError → ℕ
code VaultError.already_initialized = 1
code VaultError.not_initialized = 2
code VaultError.unauthorized = 3
code VaultError.invalid_amount = 4
code VaultError.insufficient_balance = 5
code VaultError.math_overflow = 6
code VaultError.no_deposits = 7
code VaultError.invalid_token_configuration = 8
code VaultError.insufficient_contract_balance = 9
code VaultError.negative_amount = 10
code VaultError.invalid_address = 11
code VaultError.reward_calculation_failed = 12
code VaultError.reentrancy_detected = 13
code VaultError.invalid_state = 14
code VaultError.zero_reward_increment = 15
code VaultError.no_pending_admin = 16
code VaultError.rewards_not_vested = 17
code VaultError.insufficient_reward_amount = 18
code VaultError.invalid_lock_duration = 19
code VaultError.upgrade_failed = 20
code VaultError.operation_limit_exceeded = 21
code VaultError.invalid_utilization_parameters = 22

abbrev info_of : ErrorCategory → String → ErrorInfo
info_of c m = record { category = c; message = m }

unfoldable pub info : VaultError → ErrorInfo
info VaultError.already_initialized =
    info_of ErrorCategory.state "vault has already been initialized"
info VaultError.not_initialized = info_of ErrorCategory.state "vault has not been initialized"
info VaultError.unauthorized =
    info_of ErrorCategory.authorization "caller is not authorized to perform this action"
info VaultError.invalid_amount = info_of ErrorCategory.validation "amount must be greater than zero"
info VaultError.insufficient_balance =
    info_of ErrorCategory.balance "available balance is lower than the requested amount"
info VaultError.math_overflow =
    info_of ErrorCategory.math "arithmetic overflow or underflow detected"
info VaultError.no_deposits =
    info_of ErrorCategory.balance "reward distribution requires at least one active deposit"
info VaultError.invalid_token_configuration =
    info_of ErrorCategory.validation "deposit and reward token addresses must be different"
info VaultError.insufficient_contract_balance =
    info_of ErrorCategory.balance "vault token balance is lower than the requested amount"
info VaultError.negative_amount = info_of ErrorCategory.validation "amount must not be negative"
info VaultError.invalid_address = info_of ErrorCategory.validation "provided address is invalid"
info VaultError.reward_calculation_failed =
    info_of ErrorCategory.math "reward calculation failed due to checked arithmetic"
info VaultError.reentrancy_detected =
    info_of ErrorCategory.authorization "reentrant contract call detected"
info VaultError.invalid_state = info_of ErrorCategory.state "vault state is internally inconsistent"
info VaultError.zero_reward_increment =
    info_of ErrorCategory.math "reward distribution rounded down to zero"
info VaultError.no_pending_admin = info_of ErrorCategory.state "no pending admin transfer exists"
info VaultError.rewards_not_vested = info_of ErrorCategory.validation "rewards are not yet vested"
info VaultError.insufficient_reward_amount =
    info_of ErrorCategory.validation "reward distribution amount is too small"
info VaultError.invalid_lock_duration =
    info_of ErrorCategory.validation "lock duration must be greater than zero"
info VaultError.upgrade_failed = info_of ErrorCategory.authorization "contract upgrade failed"
info VaultError.operation_limit_exceeded =
    info_of ErrorCategory.state "operation would exceed the per-transaction budget limit"
info VaultError.invalid_utilization_parameters =
    info_of ErrorCategory.validation "utilization parameters are invalid (e.g., not sorted)"

unfoldable pub category : VaultError → ErrorCategory
unfolding info
category e = (info e).category

unfoldable pub message : VaultError → String
unfolding info
message e = (info e).message

unfoldable pub from_state_error : StateError → VaultError
from_state_error StateError.already_initialized = VaultError.already_initialized
from_state_error StateError.not_initialized = VaultError.not_initialized
from_state_error StateError.invalid_state = VaultError.invalid_state
from_state_error StateError.no_pending_admin = VaultError.no_pending_admin

unfoldable pub from_validation_error : ValidationError → VaultError
from_validation_error ValidationError.invalid_amount = VaultError.invalid_amount
from_validation_error ValidationError.negative_amount = VaultError.negative_amount
from_validation_error ValidationError.invalid_address = VaultError.invalid_address
from_validation_error ValidationError.invalid_token_configuration =
    VaultError.invalid_token_configuration
from_validation_error ValidationError.insufficient_reward_amount =
    VaultError.insufficient_reward_amount
from_validation_error ValidationError.invalid_lock_duration = VaultError.invalid_lock_duration
from_validation_error ValidationError.invalid_utilization_parameters =
    VaultError.invalid_utilization_parameters

unfoldable pub from_balance_error : BalanceError → VaultError
from_balance_error BalanceError.insufficient_balance = VaultError.insufficient_balance
from_balance_error BalanceError.insufficient_contract_balance =
    VaultError.insufficient_contract_balance
from_balance_error BalanceError.no_deposits = VaultError.no_deposits

unfoldable pub from_arithmetic_error : ArithmeticError → VaultError
from_arithmetic_error ArithmeticError.overflow = VaultError.math_overflow
from_arithmetic_error ArithmeticError.reward_calculation_failed =
    VaultError.reward_calculation_failed
from_arithmetic_error ArithmeticError.zero_reward_increment = VaultError.zero_reward_increment

unfoldable pub from_authorization_error : AuthorizationError → VaultError
from_authorization_error AuthorizationError.unauthorized = VaultError.unauthorized
from_authorization_error AuthorizationError.reentrancy_detected = VaultError.reentrancy_detected
from_authorization_error AuthorizationError.upgrade_failed = VaultError.upgrade_failed
from_authorization_error AuthorizationError.operation_limit_exceeded =
    VaultError.operation_limit_exceeded

unfoldable pub from_vesting_error : VestingError → VaultError
from_vesting_error VestingError.rewards_not_vested = VaultError.rewards_not_vested
