-- ===== src/Vault/Guards/Pause.antt =====
-- The pause flag and the initialization of contracts/vault-contract/src/lib.rs: which entry points
-- they stop, and with which error.
use axionvera_network.Base.{ℕ, ◌≡◌, ◌≢◌, true, some, List, arith}
use axionvera_network.Base.Int.{ℤ}
use axionvera_network.Vault.Errors.{VaultError}
use axionvera_network.Vault.Outcome.{err}
use axionvera_network.Vault.State.{Address, MultiplierPoint}
use axionvera_network.Vault.Storage.{is_initialized, require_initialized, require_not_paused}
use axionvera_network.Vault.World.{Host, Call, World}
use axionvera_network.Vault.Contract
use axionvera_network.Vault.AssetContract

module _ (h : Host) (c : Call) (w : World h.Tokens) where
  -- While the contract is paused, each of the eight entry points of a user returns
  -- `Unauthorized` and changes nothing, whatever its arguments.
  pub paused_refuses :
      w.storage.is_paused ≡ some true
      → ((user : Address) (amount : ℤ)
          → Contract.deposit h c user amount w ≡ (err VaultError.unauthorized, w))
        × ((user : Address) (amount : ℤ)
            → Contract.withdraw h c user amount w ≡ (err VaultError.unauthorized, w))
        × ((user : Address) (amount : ℤ) (duration : ℕ)
            → Contract.lock h c user amount duration w ≡ (err VaultError.unauthorized, w))
        × ((user : Address) (limit : ℕ)
            → Contract.unlock_expired h c user limit w ≡ (err VaultError.unauthorized, w))
        × ((user : Address) → Contract.claim_rewards h c user w ≡ (err VaultError.unauthorized, w))
        × ((user asset : Address) (amount : ℤ)
            → AssetContract.deposit_asset h c user asset amount w
              ≡ (err VaultError.unauthorized, w))
        × ((user asset : Address) (amount : ℤ)
            → AssetContract.withdraw_asset h c user asset amount w
              ≡ (err VaultError.unauthorized, w))
        × ((user asset : Address)
            → AssetContract.claim_rewards_for_asset h c user asset w
              ≡ (err VaultError.unauthorized, w))
  unfolding Contract.deposit Contract.withdraw Contract.lock Contract.unlock_expired
      Contract.claim_rewards AssetContract.deposit_asset AssetContract.withdraw_asset
      AssetContract.claim_rewards_for_asset require_not_paused
  paused_refuses e = (
    λ user amount. ground arith,
    λ user amount. ground arith,
    λ user amount duration. ground arith,
    λ user limit. ground arith,
    λ user. ground arith,
    λ user asset amount. ground arith,
    λ user asset amount. ground arith,
    λ user asset. ground arith,
  )

  -- A contract that is initialized and not paused cannot be initialized again: the call returns
  -- `AlreadyInitialized` and changes nothing, whatever its arguments.
  pub initialize_once :
      w.storage.is_paused ≢ some true
      → w.storage.initialized ≡ some true
      → (admin deposit_token reward_token : Address) (vesting_period : ℕ) (target_deposits : ℤ)
        (multipliers : List MultiplierPoint)
      → Contract.initialize h c admin deposit_token reward_token vesting_period target_deposits
          multipliers w
        ≡ (err VaultError.already_initialized, w)
  unfolding Contract.initialize require_not_paused is_initialized
  initialize_once p i admin deposit_token reward_token vesting_period target_deposits multipliers =
      ground arith

  -- On a contract that is neither initialized nor paused, each of the eleven entry points other
  -- than `initialize` and those by asset returns `NotInitialized` and changes nothing, whatever
  -- its arguments.
  pub uninitialized_refuses :
      w.storage.is_paused ≢ some true
      → w.storage.initialized ≢ some true
      → ((user : Address) (amount : ℤ)
          → Contract.deposit h c user amount w ≡ (err VaultError.not_initialized, w))
        × ((user : Address) (amount : ℤ)
            → Contract.withdraw h c user amount w ≡ (err VaultError.not_initialized, w))
        × ((amount : ℤ)
            → Contract.distribute_rewards h c amount w ≡ (err VaultError.not_initialized, w))
        × ((user : Address) (amount : ℤ) (duration : ℕ)
            → Contract.lock h c user amount duration w ≡ (err VaultError.not_initialized, w))
        × ((user : Address) (limit : ℕ)
            → Contract.unlock_expired h c user limit w ≡ (err VaultError.not_initialized, w))
        × ((user : Address)
            → Contract.claim_rewards h c user w ≡ (err VaultError.not_initialized, w))
        × ((admin : Address)
            → Contract.propose_new_admin h c admin w ≡ (err VaultError.not_initialized, w))
        × ((admin : Address)
            → Contract.accept_admin h c admin w ≡ (err VaultError.not_initialized, w))
        × (Contract.pause_contract h c w ≡ (err VaultError.not_initialized, w))
        × (Contract.unpause_contract h c w ≡ (err VaultError.not_initialized, w))
        × ((hash : ℕ) → Contract.upgrade h c hash w ≡ (err VaultError.not_initialized, w))
  unfolding Contract.deposit Contract.withdraw Contract.lock Contract.unlock_expired
      Contract.claim_rewards Contract.distribute_rewards Contract.propose_new_admin
      Contract.accept_admin Contract.pause_contract Contract.unpause_contract Contract.upgrade
      require_not_paused require_initialized is_initialized
  uninitialized_refuses p i = (
    λ user amount. ground arith,
    λ user amount. ground arith,
    λ amount. ground arith,
    λ user amount duration. ground arith,
    λ user limit. ground arith,
    λ user. ground arith,
    λ admin. ground arith,
    λ admin. ground arith,
    ground arith,
    ground arith,
    λ hash. ground arith,
  )
