-- ===== src/Vault/Entries/Initialize.antt =====
-- `initialize`, as a whole.
use axionvera_network.Base.{ℕ, ◌≤◌, ◌≡◌, ◌≢◌, refl, true, false, List, [], ◌∷◌, arith}
use axionvera_network.Base.Int.{ℤ}
use axionvera_network.Vault.Outcome.{ok, IsOk}
use axionvera_network.Vault.State.{Address, MultiplierPoint, empty_storage}
use axionvera_network.Vault.Storage.{initialize_state, is_initialized}
use axionvera_network.Vault.World.{Host, Call, World}
use axionvera_network.Vault.Validation.{
  validate_distinct_token_addresses, validate_utilization_multipliers,
}
use axionvera_network.Vault.Contract.{initialize}
use axionvera_network.Vault.Ledger.{Account, Ledger, staked}
use axionvera_network.Vault.Ledger.Sums.{sum_over}
use axionvera_network.Vault.Ledger.Solvency.{IsSolvent, owed}
use axionvera_network.Vault.Refinement.{Config, Represents}

-- The ledger of a new vault.
abbrev pub empty_account : Account
empty_account = record { liquid = 0; locks = []; index = 0; accrued = 0; since = 0 }

abbrev pub empty_ledger : Ledger
empty_ledger = record { total = 0; index = 0; reserve = 0; accounts = λ u. empty_account }

empty_sum : (users : List Address) → 0 ≡ sum_over staked empty_ledger.accounts users
empty_sum [] = refl
empty_sum (u ∷ users) = omega (arith, empty_sum users)

empty_owed : (users : List Address) → sum_over (owed 0) empty_ledger.accounts users ≤ 0
empty_owed [] = omega arith
empty_owed (u ∷ users) = omega (arith, empty_owed users)

pub empty_ledger-IsSolvent : (users : List Address) → IsSolvent users empty_ledger
empty_ledger-IsSolvent users = record {
  backed = empty_sum users;
  behind = λ u. omega arith;
  covered = empty_owed users;
}

abbrev pub config : Address → Address → Address → ℕ → ℤ → List MultiplierPoint → Config
config admin deposit_token reward_token vesting_period target_deposits multipliers = record {
  admin = admin;
  deposit_token = deposit_token;
  reward_token = reward_token;
  vesting_period = vesting_period;
  target_deposits = target_deposits;
  utilization_multipliers = multipliers;
}

module _ (h : Host) (c : Call) (w w' : World h.Tokens) (admin deposit_token reward_token : Address)
    (vesting_period : ℕ) (target_deposits : ℤ) (multipliers : List MultiplierPoint) where
  -- An initialization that succeeds has found a contract that was not initialized, is
  -- authorized by the admin, has two different tokens and multiplier points in order, moves no
  -- token, and leaves the storage of `initialize_state`.
  pub initialize_runs :
      initialize h c admin deposit_token reward_token vesting_period target_deposits multipliers w
        ≡ (ok tt, w')
      → (is_initialized w.storage ≡ false)
        × (c.authorized admin ≡ true)
        × (deposit_token ≢ reward_token)
        × IsOk (validate_utilization_multipliers multipliers)
        × (w'.tokens ≡ w.tokens)
        × (w'.storage
            ≡ initialize_state admin deposit_token reward_token vesting_period target_deposits
                multipliers w.storage)
  unfolding initialize validate_distinct_token_addresses
  initialize_runs d = ground arith

  -- A new vault stands for the empty ledger.
  pub initialize_state-Represents :
      Represents
        (initialize_state admin deposit_token reward_token vesting_period target_deposits
          multipliers empty_storage)
        (config admin deposit_token reward_token vesting_period target_deposits multipliers)
        empty_ledger
  unfolding initialize_state
  initialize_state-Represents = record {
    config = ground arith;
    total = refl;
    index = refl;
    total_fits = omega arith;
    index_fits = omega arith;
    accounts = λ u. ground arith;
  }

  pub initialize_refines :
      w.storage ≡ empty_storage
      → initialize h c admin deposit_token reward_token vesting_period target_deposits multipliers w
        ≡ (ok tt, w')
      → Represents w'.storage
          (config admin deposit_token reward_token vesting_period target_deposits multipliers)
          empty_ledger
  initialize_refines e d =
      let (_, _, _, _, _, stored) = initialize_runs d in rw (stored, e) initialize_state-Represents
