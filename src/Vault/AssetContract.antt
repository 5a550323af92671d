-- ===== src/Vault/AssetContract.antt =====
-- The entry points by asset of contracts/vault-contract/src/lib.rs.
use axionvera_network.Base.{not, ◌==◌, if◌then◌else◌}
use axionvera_network.Base.Int.{ℤ, pos, ltb_ℤ, leb_ℤ}
use axionvera_network.Vault.Errors.{
  ValidationError, AuthorizationError, from_validation_error, from_authorization_error,
}
use axionvera_network.Vault.Action.{Action, ◌>>=◌, ◌>>◌, pure, lift, raise_if}
use axionvera_network.Vault.State.{Address}
use axionvera_network.Vault.Storage.{require_initialized, require_not_paused, get_state, get_admin}
use axionvera_network.Vault.Assets.{
  add_supported_asset, require_asset_supported, store_asset_deposit, store_asset_withdraw,
  store_asset_reward_distribution, store_asset_claimable_rewards,
}
use axionvera_network.Vault.Events.{Event}
use axionvera_network.Vault.World.{
  Host, Call, World, stored, reads_storage, modify_storage, emit, require_auth, transfer,
}
use axionvera_network.Vault.Validation.{validate_positive_amount, with_non_reentrant}
use axionvera_network.Vault.Contract.{min_reward_distribution, pay_rewards}

module _ (h : Host) (c : Call) where
  unfoldable pub add_asset : Address → Address → Action (World h.Tokens) (Unit {0})
  unfolding from_authorization_error
  add_asset admin asset = do
    reads_storage require_initialized
    stored_admin ← reads_storage get_admin
    raise_if (not (admin == stored_admin))
        (from_authorization_error AuthorizationError.unauthorized)
    require_auth c admin
    modify_storage (add_supported_asset asset)
    emit (Event.asset_added asset c.now)

  unfoldable pub deposit_asset : Address → Address → ℤ → Action (World h.Tokens) (Unit {0})
  deposit_asset from asset amount = do
    reads_storage require_not_paused
    reads_storage require_initialized
    lift (validate_positive_amount amount)
    require_auth c from
    reads_storage (λ s. require_asset_supported s asset)
    with_non_reentrant do
      transfer h asset from c.contract amount
      _position ← stored (store_asset_deposit c.now from asset amount)
      emit (Event.asset_deposit from asset amount c.now)

  unfoldable pub withdraw_asset : Address → Address → ℤ → Action (World h.Tokens) (Unit {0})
  withdraw_asset to asset amount = do
    reads_storage require_not_paused
    reads_storage require_initialized
    lift (validate_positive_amount amount)
    require_auth c to
    reads_storage (λ s. require_asset_supported s asset)
    with_non_reentrant do
      position ← stored (store_asset_withdraw c.now to asset amount)
      emit (Event.asset_withdraw to asset amount position.balance c.now)
      transfer h asset c.contract to amount

  unfoldable pub distribute_rewards_for_asset : Address → Address → ℤ → Action (World h.Tokens) ℤ
  unfolding from_validation_error from_authorization_error
  distribute_rewards_for_asset admin asset amount = do
    reads_storage require_initialized
    lift (validate_positive_amount amount)
    raise_if (ltb_ℤ amount min_reward_distribution)
        (from_validation_error ValidationError.insufficient_reward_amount)
    reads_storage (λ s. require_asset_supported s asset)
    state ← reads_storage get_state
    raise_if (not (admin == state.admin)) (from_authorization_error AuthorizationError.unauthorized)
    require_auth c admin
    with_non_reentrant do
      transfer h state.reward_token admin c.contract amount
      next_reward_index ← stored (store_asset_reward_distribution asset amount)
      emit (Event.asset_distribute admin asset amount c.now)
      pure next_reward_index

  unfoldable pub claim_rewards_for_asset : Address → Address → Action (World h.Tokens) ℤ
  claim_rewards_for_asset user asset = do
    reads_storage require_not_paused
    reads_storage require_initialized
    require_auth c user
    reads_storage (λ s. require_asset_supported s asset)
    with_non_reentrant do
      amount ← stored (store_asset_claimable_rewards c.now user asset)
      if leb_ℤ amount (pos 0)
          then pure (pos 0)
          else (pay_rewards h c user amount
              >> emit (Event.asset_claim user asset amount c.now)
              >> pure amount)
