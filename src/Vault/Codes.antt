-- ===== src/Vault/Codes.antt =====
-- The error codes and categories of contracts/vault-contract/src/errors.rs.
use axionvera_network.Base.{◌≡◌, arith}
use axionvera_network.Vault.Errors.{
  ErrorCategory, StateError, ValidationError, BalanceError, ArithmeticError, VestingError,
  AuthorizationError, VaultError, code, info, category, from_state_error, from_validation_error,
  from_balance_error, from_arithmetic_error, from_vesting_error, from_authorization_error,
}

-- Two errors with the same code are the same error, so the code that the host reports tells which
-- error it was.
pub code-injective : (e e' : VaultError) → code e ≡ code e' → e ≡ e'
unfolding code
code-injective e e' h = ground arith

-- The enums of the contract keep their category when they become a `VaultError`, but for
-- `VestingError`, which counts as validation, and `OperationLimitExceeded`, which is declared with
-- the authorization errors and counts as state.
pub from_error_categories :
    ((e : StateError) → category (from_state_error e) ≡ ErrorCategory.state)
    × ((e : ValidationError) → category (from_validation_error e) ≡ ErrorCategory.validation)
    × ((e : BalanceError) → category (from_balance_error e) ≡ ErrorCategory.balance)
    × ((e : ArithmeticError) → category (from_arithmetic_error e) ≡ ErrorCategory.math)
    × ((e : VestingError) → category (from_vesting_error e) ≡ ErrorCategory.validation)
    × ((e : AuthorizationError)
        → category (from_authorization_error e) ≡ (elim e [
          | AuthorizationError.operation_limit_exceeded ↦ ErrorCategory.state
          | _ ↦ ErrorCategory.authorization
        ]))
unfolding category info from_state_error from_validation_error from_balance_error
    from_arithmetic_error from_vesting_error from_authorization_error
from_error_categories = (
  λ e. ground arith,
  λ e. ground arith,
  λ e. ground arith,
  λ e. ground arith,
  λ e. ground arith,
  λ e. ground arith,
)
