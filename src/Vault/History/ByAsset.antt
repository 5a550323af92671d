-- ===== src/Vault/History/ByAsset.antt =====
-- The entry points by asset leave the main accounts alone: what a successful call has checked, has
-- done to the tokens, and has kept.
use axionvera_network.Base.{List, ◌≢◌, ℕ, ◌≡◌, inl, inr, true, false, none, some, arith}
use axionvera_network.Base.Int.{ℤ, pos, ◌<ℤ◌}
use axionvera_network.Vault.Outcome.{ok, Outcome-cases}
use axionvera_network.Vault.State.{Address, Storage, MultiplierPoint}
use axionvera_network.Vault.Storage.{
  is_initialized, get_state, enter_non_reentrant, exit_non_reentrant,
}
use axionvera_network.Vault.Assets.{
  add_supported_asset, set_asset_total_deposits, set_asset_reward_index, set_user_asset_position,
  store_asset_deposit, store_asset_withdraw, store_asset_reward_distribution,
  store_asset_claimable_rewards,
}
use axionvera_network.Vault.World.{Host, Call, World}
use axionvera_network.Vault.Validation.{with_non_reentrant, validate_positive_amount}
use axionvera_network.Vault.Contract
use axionvera_network.Vault.Contract.{pay_rewards}
use axionvera_network.Vault.AssetContract.{
  add_asset, deposit_asset, withdraw_asset, distribute_rewards_for_asset, claim_rewards_for_asset,
}
use axionvera_network.Vault.Ledger.{Ledger}
use axionvera_network.Vault.Refinement.{Config, Represents}
use axionvera_network.Vault.Entries.{with_guard}

-- The storage without the guard and the accounts by asset.
abbrev pub main_part : Storage → Storage
main_part s = record s {
  reentrancy_guard = none;
  supported_assets = none;
  asset_total_deposits = λ a. none;
  asset_reward_index = λ a. none;
  user_asset_balance = λ u a. none;
  user_asset_reward_index = λ u a. none;
  user_asset_accrued_rewards = λ u a. none;
  user_asset_last_reward_timestamp = λ u a. none;
}

main_part-Represents :
    (s : Storage) (k : Config) (l : Ledger) → Represents s k l → Represents (main_part s) k l
main_part-Represents s k l r = record {
  config = ground (arith, r.config);
  total = r.total;
  index = r.index;
  total_fits = r.total_fits;
  index_fits = r.index_fits;
  accounts = λ u. ground (arith, r.accounts u);
}

Represents-main_part :
    (s : Storage) (k : Config) (l : Ledger) → Represents (main_part s) k l → Represents s k l
Represents-main_part s k l r = record {
  config = ground (arith, r.config);
  total = r.total;
  index = r.index;
  total_fits = r.total_fits;
  index_fits = r.index_fits;
  accounts = λ u. ground (arith, r.accounts u);
}

-- A ledger is in the main part.
pub beside-Represents :
    (s s' : Storage) (k : Config) (l : Ledger)
    → main_part s' ≡ main_part s
    → Represents s k l
    → Represents s' k l
beside-Represents s s' k l e r = Represents-main_part s' k l (rw e (main_part-Represents s k l r))

module _ (now : ℕ) (user asset : Address) (s : Storage) where
  add_supported_asset-beside : main_part (add_supported_asset asset s) ≡ main_part s
  unfolding add_supported_asset
  add_supported_asset-beside = ground arith

  store_asset_deposit-beside :
      (amount : ℤ) → main_part (store_asset_deposit now user asset amount s).1 ≡ main_part s
  unfolding store_asset_deposit set_asset_total_deposits set_user_asset_position
  store_asset_deposit-beside amount = ground arith

  store_asset_withdraw-beside :
      (amount : ℤ) → main_part (store_asset_withdraw now user asset amount s).1 ≡ main_part s
  unfolding store_asset_withdraw set_asset_total_deposits set_user_asset_position
  store_asset_withdraw-beside amount = ground arith

  store_asset_reward_distribution-beside :
      (amount : ℤ) → main_part (store_asset_reward_distribution asset amount s).1 ≡ main_part s
  unfolding store_asset_reward_distribution set_asset_reward_index
  store_asset_reward_distribution-beside amount = ground arith

  store_asset_claimable_rewards-beside :
      main_part (store_asset_claimable_rewards now user asset s).1 ≡ main_part s
  unfolding store_asset_claimable_rewards set_user_asset_position
  store_asset_claimable_rewards-beside = ground arith

-- What each call has done: the storage is beside the one before, and the tokens are those of one
-- transfer.
module _ (h : Host) (c : Call) (w w' : World h.Tokens) where
  add_asset_runs :
      (admin asset : Address)
      → add_asset h c admin asset w ≡ (ok tt, w')
      → (w'.storage ≡ add_supported_asset asset w.storage) × (w'.tokens ≡ w.tokens)
  unfolding add_asset
  add_asset_runs admin asset d = ground arith

  pub add_asset-beside :
      (admin asset : Address)
      → add_asset h c admin asset w ≡ (ok tt, w')
      → (main_part w'.storage ≡ main_part w.storage) × (w'.tokens ≡ w.tokens)
  add_asset-beside admin asset d =
      let (stored, still) = add_asset_runs admin asset d in
      (rw stored (add_supported_asset-beside 0 admin asset w.storage), still)

  deposit_asset_runs :
      (user asset : Address) (amount : ℤ)
      → deposit_asset h c user asset amount w ≡ (ok tt, w')
      → (pos 0 <ℤ amount)
        × (c.authorized user ≡ true)
        × (h.transfer asset user c.contract amount w.tokens ≡ some w'.tokens)
        × (w'.storage
            ≡ with_guard false
                (store_asset_deposit c.now user asset amount (with_guard true w.storage)).1)
  unfolding deposit_asset with_non_reentrant enter_non_reentrant exit_non_reentrant
      validate_positive_amount
  deposit_asset_runs user asset amount d = ground arith

  pub deposit_asset-beside :
      (user asset : Address) (amount : ℤ)
      → deposit_asset h c user asset amount w ≡ (ok tt, w')
      → (pos 0 <ℤ amount)
        × (c.authorized user ≡ true)
        × (h.transfer asset user c.contract amount w.tokens ≡ some w'.tokens)
        × (main_part w'.storage ≡ main_part w.storage)
  deposit_asset-beside user asset amount d =
      let (positive, auth, moved, stored) = deposit_asset_runs user asset amount d in
      (
        positive,
        auth,
        moved,
        rw stored (store_asset_deposit-beside c.now user asset (with_guard true w.storage) amount),
      )

  withdraw_asset_runs :
      (user asset : Address) (amount : ℤ)
      → withdraw_asset h c user asset amount w ≡ (ok tt, w')
      → (pos 0 <ℤ amount)
        × (c.authorized user ≡ true)
        × (h.transfer asset c.contract user amount w.tokens ≡ some w'.tokens)
        × (w'.storage
            ≡ with_guard false
                (store_asset_withdraw c.now user asset amount (with_guard true w.storage)).1)
  unfolding withdraw_asset with_non_reentrant enter_non_reentrant exit_non_reentrant
      validate_positive_amount
  withdraw_asset_runs user asset amount d = ground arith

  pub withdraw_asset-beside :
      (user asset : Address) (amount : ℤ)
      → withdraw_asset h c user asset amount w ≡ (ok tt, w')
      → (pos 0 <ℤ amount)
        × (c.authorized user ≡ true)
        × (h.transfer asset c.contract user amount w.tokens ≡ some w'.tokens)
        × (main_part w'.storage ≡ main_part w.storage)
  withdraw_asset-beside user asset amount d =
      let (positive, auth, moved, stored) = withdraw_asset_runs user asset amount d in
      (
        positive,
        auth,
        moved,
        rw stored (store_asset_withdraw-beside c.now user asset (with_guard true w.storage) amount),
      )

  distribute_rewards_for_asset_runs :
      (admin asset : Address) (amount index : ℤ)
      → distribute_rewards_for_asset h c admin asset amount w ≡ (ok index, w')
      → (token : Address) × (pos 0 <ℤ amount)
        × (c.authorized admin ≡ true)
        × (h.transfer token admin c.contract amount w.tokens ≡ some w'.tokens)
        × (w'.storage
            ≡ with_guard false
                (store_asset_reward_distribution asset amount (with_guard true w.storage)).1)
  unfolding distribute_rewards_for_asset with_non_reentrant enter_non_reentrant exit_non_reentrant
      validate_positive_amount
  distribute_rewards_for_asset_runs admin asset amount index d =
      elim (Outcome-cases (get_state w.storage)) [
        | inl (state, e) ↦
            (state.reward_token, ground arith, ground arith, ground (arith, e), ground (arith, e))
        | inr stuck ↦ absurd (ground arith)
      ]

  pub distribute_rewards_for_asset-beside :
      (admin asset : Address) (amount index : ℤ)
      → distribute_rewards_for_asset h c admin asset amount w ≡ (ok index, w')
      → (token : Address) × (pos 0 <ℤ amount)
        × (c.authorized admin ≡ true)
        × (h.transfer token admin c.contract amount w.tokens ≡ some w'.tokens)
        × (main_part w'.storage ≡ main_part w.storage)
  distribute_rewards_for_asset-beside admin asset amount index d =
      let (token, positive, auth, moved, stored) =
        distribute_rewards_for_asset_runs admin asset amount index d in
      (
        token,
        positive,
        auth,
        moved,
        rw stored (
            store_asset_reward_distribution-beside c.now admin asset (with_guard true w.storage)
              amount),
      )

  claim_rewards_for_asset_runs :
      (user asset : Address) (amount : ℤ)
      → claim_rewards_for_asset h c user asset w ≡ (ok amount, w')
      → w'.storage
        ≡ with_guard false
            (store_asset_claimable_rewards c.now user asset (with_guard true w.storage)).1
  unfolding claim_rewards_for_asset pay_rewards with_non_reentrant enter_non_reentrant
      exit_non_reentrant
  claim_rewards_for_asset_runs user asset amount d = ground arith

  pub claim_rewards_for_asset-beside :
      (user asset : Address) (amount : ℤ)
      → claim_rewards_for_asset h c user asset w ≡ (ok amount, w')
      → main_part w'.storage ≡ main_part w.storage
  claim_rewards_for_asset-beside user asset amount d =
      rw (claim_rewards_for_asset_runs user asset amount d)
        (store_asset_claimable_rewards-beside c.now user asset (with_guard true w.storage))

-- A vault that is initialized cannot be initialized again.
pub initialize_again :
    (h : Host) (c : Call) (w w' : World h.Tokens) (admin deposit_token reward_token : Address)
    (vesting_period : ℕ) (target_deposits : ℤ) (multipliers : List MultiplierPoint)
    → w.storage.initialized ≡ some true
    → Contract.initialize h c admin deposit_token reward_token vesting_period target_deposits
        multipliers w
      ≢ (ok tt, w')
unfolding Contract.initialize is_initialized
initialize_again h c w w' admin deposit_token reward_token vesting_period target_deposits
      multipliers done d =
    absurd (ground arith)
