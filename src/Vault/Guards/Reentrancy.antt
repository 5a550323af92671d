-- ===== src/Vault/Guards/Reentrancy.antt =====
-- `with_non_reentrant` of contracts/vault-contract/src/lib.rs, and the entry points under it.
use axionvera_network.Base.{ℕ, ◌≡◌, ◌≢◌, true, false, some, arith}
use axionvera_network.Base.Int.{ℤ}
use axionvera_network.Vault.Errors.{VaultError}
use axionvera_network.Vault.Outcome.{err, panic, IsOk}
use axionvera_network.Vault.Action.{Action}
use axionvera_network.Vault.State.{Address}
use axionvera_network.Vault.Storage.{enter_non_reentrant, exit_non_reentrant}
use axionvera_network.Vault.World.{Host, Call, World}
use axionvera_network.Vault.Validation.{with_non_reentrant}
use axionvera_network.Vault.Contract
use axionvera_network.Vault.AssetContract

module _ {T A : Type 0} (f : Action (World T) A) (w : World T) where
  -- While the guard is held, a call under it is refused with `ReentrancyDetected`, its body does not
  -- run, and nothing changes.
  pub with_non_reentrant-held :
      w.storage.reentrancy_guard ≡ some true
      → with_non_reentrant f w ≡ (err VaultError.reentrancy_detected, w)
  unfolding with_non_reentrant enter_non_reentrant
  with_non_reentrant-held e = ground arith

  -- While the guard is free, the body runs on the storage with the guard held and its result is
  -- returned, and a call that does not trap leaves the guard free again, whether the body has
  -- succeeded or failed.
  pub with_non_reentrant-free :
      w.storage.reentrancy_guard ≢ some true
      → (with_non_reentrant f w).0 ≢ panic
      → ((with_non_reentrant f w).0
          ≡ (f (record w { storage = record w.storage { reentrancy_guard = some true } })).0)
        × ((with_non_reentrant f w).1.storage.reentrancy_guard ≡ some false)
  unfolding with_non_reentrant enter_non_reentrant exit_non_reentrant
  with_non_reentrant-free e p = ground arith

-- A call that neither succeeds nor changes anything.
abbrev pub Refused : {T A : Type 0} → Action (World T) A → World T → Type 0
Refused m w = (¬ IsOk (m w).0) × ((m w).1 ≡ w)

-- While the reentrancy guard is held, none of `deposit`, `withdraw`, `distribute_rewards`,
-- `lock`, `unlock_expired` and `claim_rewards` succeeds or changes anything, whoever calls it
-- with whatever arguments.
pub reentrant-Refused :
    (h : Host) (c : Call) (w : World h.Tokens)
    → w.storage.reentrancy_guard ≡ some true
    → ((user : Address) (amount : ℤ) → Refused (Contract.deposit h c user amount) w)
      × ((user : Address) (amount : ℤ) → Refused (Contract.withdraw h c user amount) w)
      × ((amount : ℤ) → Refused (Contract.distribute_rewards h c amount) w)
      × ((user : Address) (amount : ℤ) (duration : ℕ)
          → Refused (Contract.lock h c user amount duration) w)
      × ((user : Address) (limit : ℕ) → Refused (Contract.unlock_expired h c user limit) w)
      × ((user : Address) → Refused (Contract.claim_rewards h c user) w)
unfolding Contract.deposit Contract.withdraw Contract.distribute_rewards Contract.lock
    Contract.unlock_expired Contract.claim_rewards with_non_reentrant enter_non_reentrant
reentrant-Refused h c w e = (
  λ user amount. ground arith,
  λ user amount. ground arith,
  λ amount. ground arith,
  λ user amount duration. ground arith,
  λ user limit. ground arith,
  λ user. ground arith,
)

-- While the reentrancy guard is held, none of the entry points by asset that move tokens succeeds
-- or changes anything, whoever calls it with whatever arguments.
pub asset_reentrant-Refused :
    (h : Host) (c : Call) (w : World h.Tokens)
    → w.storage.reentrancy_guard ≡ some true
    → ((user asset : Address) (amount : ℤ)
        → Refused (AssetContract.deposit_asset h c user asset amount) w)
      × ((user asset : Address) (amount : ℤ)
          → Refused (AssetContract.withdraw_asset h c user asset amount) w)
      × ((admin asset : Address) (amount : ℤ)
          → Refused (AssetContract.distribute_rewards_for_asset h c admin asset amount) w)
      × ((user asset : Address) → Refused (AssetContract.claim_rewards_for_asset h c user asset) w)
unfolding AssetContract.deposit_asset AssetContract.withdraw_asset
    AssetContract.distribute_rewards_for_asset AssetContract.claim_rewards_for_asset
    with_non_reentrant enter_non_reentrant
asset_reentrant-Refused h c w e = (
  λ user asset amount. ground arith,
  λ user asset amount. ground arith,
  λ admin asset amount. ground arith,
  λ user asset. ground arith,
)
