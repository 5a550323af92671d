-- ===== src/Vault/Validation.antt =====
-- contracts/vault-contract/src/lib.rs: the checks on arguments, and the
-- reentrancy guard around an operation.
use axionvera_network.Base.{ℕ, List, [], ◌∷◌, ltb, ◌==◌, if◌then◌else◌}
use axionvera_network.Base.Int.{ℤ, pos, ltb_ℤ, eqb_ℤ}
use axionvera_network.Vault.Errors.{
  ValidationError, BalanceError, from_validation_error, from_balance_error,
}
use axionvera_network.Vault.Outcome.{Outcome, ok, err, panic, ◌>>◌, fail_if}
use axionvera_network.Vault.Action
use axionvera_network.Vault.Action.{Action}
use axionvera_network.Vault.State.{Address, MultiplierPoint}
use axionvera_network.Vault.Storage.{enter_non_reentrant, exit_non_reentrant}
use axionvera_network.Vault.World.{World, stored}

unfoldable pub validate_positive_amount : ℤ → Outcome (Unit {0})
unfolding from_validation_error
validate_positive_amount amount = do
  fail_if (ltb_ℤ amount (pos 0)) (from_validation_error ValidationError.negative_amount)
  fail_if (eqb_ℤ amount (pos 0)) (from_validation_error ValidationError.invalid_amount)
  ok tt

unfoldable pub validate_distinct_token_addresses : Address → Address → Outcome (Unit {0})
unfolding from_validation_error
validate_distinct_token_addresses deposit_token reward_token =
    fail_if (deposit_token == reward_token)
      (from_validation_error ValidationError.invalid_token_configuration)

-- The loop over the points, on the last utilization seen.
unfoldable pub check_sorted : ℕ → List MultiplierPoint → Outcome (Unit {0})
unfolding from_validation_error
check_sorted last_util_bps [] = ok tt
check_sorted last_util_bps (point ∷ points) =
    if ltb point.utilization_bps last_util_bps
    then err (from_validation_error ValidationError.invalid_utilization_parameters)
    else check_sorted point.utilization_bps points

unfoldable pub validate_utilization_multipliers : List MultiplierPoint → Outcome (Unit {0})
unfolding check_sorted
validate_utilization_multipliers [] = ok tt
validate_utilization_multipliers (point ∷ points) = check_sorted 0 (point ∷ points)

unfoldable pub ensure_contract_balance : ℤ → ℤ → Outcome (Unit {0})
unfolding from_balance_error
ensure_contract_balance balance requested_amount =
    fail_if (ltb_ℤ balance requested_amount)
      (from_balance_error BalanceError.insufficient_contract_balance)

-- The guard is cleared after `Ok` and `Err`; a panic unwinds nothing, the host traps.
abbrev pub leave : {T A : Type 0} → Outcome A × World T → Outcome A × World T
unfolding exit_non_reentrant
leave (ok a, w) = (ok a, record w { storage = exit_non_reentrant w.storage })
leave (err e, w) = (err e, record w { storage = exit_non_reentrant w.storage })
leave (panic, w) = (panic, w)

unfoldable pub with_non_reentrant : {T A : Type 0} → Action (World T) A → Action (World T) A
unfolding enter_non_reentrant leave
with_non_reentrant f = Action.◌>>=◌ (stored enter_non_reentrant) (λ _. λ w. leave (f w))
