-- ===== src/Vault/Contract.antt =====
-- The entry points of contracts/vault-contract/src/lib.rs, but for those by
-- asset. Each takes the token contracts and the invocation.
use axionvera_network.Base.{ℕ, true, false, not, List, ltb, ◌==◌, if◌then◌else◌}
use axionvera_network.Base.Int.{ℤ, pos, ltb_ℤ, leb_ℤ}
use axionvera_network.Base.I128.{checked_add_u64}
use axionvera_network.Vault.Errors.{
  VaultError, StateError, ValidationError, AuthorizationError, from_state_error,
  from_validation_error, from_authorization_error,
}
use axionvera_network.Vault.Outcome.{Outcome, ok_or}
use axionvera_network.Vault.Action.{Action, ◌>>=◌, ◌>>◌, pure, lift, raise_if}
use axionvera_network.Vault.State.{Address, MultiplierPoint}
use axionvera_network.Vault.Storage.{
  is_initialized, require_initialized, require_not_paused, initialize_state, get_state, get_admin,
  set_admin, get_pending_admin, set_pending_admin, clear_pending_admin, get_reward_token,
  set_paused,
}
use axionvera_network.Vault.Locks.{store_lock, unlock_expired_locks}
use axionvera_network.Vault.Operations.{
  store_deposit, store_withdraw, store_reward_distribution, store_claimable_rewards,
}
use axionvera_network.Vault.Events.{Event}
use axionvera_network.Vault.World.{
  Host, Call, World, stored, reads_storage, modify_storage, emit, update_wasm, require_auth,
  transfer, reads_tokens,
}
use axionvera_network.Vault.Validation.{
  validate_positive_amount, validate_distinct_token_addresses, validate_utilization_multipliers,
  ensure_contract_balance, with_non_reentrant,
}

-- `MIN_REWARD_DISTRIBUTION` and `MAX_UNLOCK_LIMIT`
abbrev pub min_reward_distribution : ℤ
min_reward_distribution = pos 100_000

abbrev pub max_unlock_limit : ℕ
max_unlock_limit = 50

module _ (h : Host) (c : Call) where
  unfoldable pub initialize :
      Address
      → Address
      → Address
      → ℕ
      → ℤ
      → List MultiplierPoint
      → Action (World h.Tokens) (Unit {0})
  unfolding from_state_error
  initialize admin deposit_token reward_token vesting_period target_deposits multipliers = do
    reads_storage require_not_paused
    initialized ← reads_storage (λ s. Outcome.ok (is_initialized s))
    raise_if initialized (from_state_error StateError.already_initialized)
    lift (validate_distinct_token_addresses deposit_token reward_token)
    lift (validate_utilization_multipliers multipliers)
    require_auth c admin
    modify_storage (
        initialize_state admin deposit_token reward_token vesting_period target_deposits
          multipliers)
    emit (Event.initialize admin deposit_token reward_token c.now)

  unfoldable pub propose_new_admin : Address → Action (World h.Tokens) (Unit {0})
  propose_new_admin new_admin = do
    reads_storage require_initialized
    admin ← reads_storage get_admin
    require_auth c admin
    modify_storage (set_pending_admin new_admin)
    emit (Event.admin_transfer_proposed admin new_admin c.now)

  unfoldable pub accept_admin : Address → Action (World h.Tokens) (Unit {0})
  unfolding from_state_error from_authorization_error
  accept_admin new_admin = do
    reads_storage require_initialized
    require_auth c new_admin
    previous_admin ← reads_storage get_admin
    pending ← reads_storage get_pending_admin
    pending_admin ← lift (ok_or pending (from_state_error StateError.no_pending_admin))
    raise_if (not (pending_admin == new_admin))
        (from_authorization_error AuthorizationError.unauthorized)
    modify_storage (set_admin new_admin)
    modify_storage clear_pending_admin
    emit (Event.admin_transfer_accepted previous_admin new_admin c.now)

  unfoldable pub deposit : Address → ℤ → Action (World h.Tokens) (Unit {0})
  deposit from amount = do
    reads_storage require_not_paused
    reads_storage require_initialized
    lift (validate_positive_amount amount)
    require_auth c from
    with_non_reentrant do
      state ← reads_storage get_state
      transfer h state.deposit_token from c.contract amount
      _stored ← stored (store_deposit c.now from amount)
      emit (Event.deposit from amount c.now)

  unfoldable pub withdraw : Address → ℤ → Action (World h.Tokens) (Unit {0})
  withdraw to amount = do
    reads_storage require_not_paused
    reads_storage require_initialized
    lift (validate_positive_amount amount)
    require_auth c to
    with_non_reentrant do
      state ← reads_storage get_state
      (_state, position) ← stored (store_withdraw c.now to amount)
      emit (Event.withdraw to amount position.balance c.now)
      transfer h state.deposit_token c.contract to amount

  unfoldable pub distribute_rewards : ℤ → Action (World h.Tokens) ℤ
  unfolding from_validation_error
  distribute_rewards amount = do
    reads_storage require_initialized
    lift (validate_positive_amount amount)
    raise_if (ltb_ℤ amount min_reward_distribution)
        (from_validation_error ValidationError.insufficient_reward_amount)
    state ← reads_storage get_state
    require_auth c state.admin
    with_non_reentrant do
      transfer h state.reward_token state.admin c.contract amount
      next_state ← stored (store_reward_distribution amount)
      emit (Event.distribute state.admin amount c.now)
      pure next_state.reward_index

  unfoldable pub lock : Address → ℤ → ℕ → Action (World h.Tokens) (Unit {0})
  unfolding from_validation_error
  lock from amount duration_seconds = do
    reads_storage require_not_paused
    reads_storage require_initialized
    lift (validate_positive_amount amount)
    raise_if (duration_seconds == 0) (from_validation_error ValidationError.invalid_lock_duration)
    require_auth c from
    with_non_reentrant do
      unlock_timestamp ←
          lift (ok_or (checked_add_u64 c.now duration_seconds) VaultError.math_overflow)
      stored (store_lock c.now from amount duration_seconds)
      emit (Event.lock from amount unlock_timestamp c.now)

  unfoldable pub unlock_expired : Address → ℕ → Action (World h.Tokens) ℤ
  unlock_expired user limit = do
    reads_storage require_not_paused
    reads_storage require_initialized
    require_auth c user
    raise_if (ltb max_unlock_limit limit) VaultError.operation_limit_exceeded
    with_non_reentrant do
      unlocked_amount ← stored (unlock_expired_locks c.now user limit)
      if ltb_ℤ (pos 0) unlocked_amount
          then emit (Event.unlock user unlocked_amount c.now)
          else pure tt
      pure unlocked_amount

  -- The payout of a claim, once the vested amount is positive.
  unfoldable pub pay_rewards : Address → ℤ → Action (World h.Tokens) (Unit {0})
  pay_rewards user amount = do
    reward_token ← reads_storage get_reward_token
    reads_tokens
        (λ tokens. ensure_contract_balance (h.balance reward_token c.contract tokens) amount)
    transfer h reward_token c.contract user amount

  unfoldable pub claim_rewards : Address → Action (World h.Tokens) ℤ
  unfolding pay_rewards
  claim_rewards user = do
    reads_storage require_not_paused
    reads_storage require_initialized
    require_auth c user
    with_non_reentrant do
      amount ← stored (store_claimable_rewards c.now user)
      if leb_ℤ amount (pos 0)
          then pure (pos 0)
          else (pay_rewards user amount >> emit (Event.claim user amount c.now) >> pure amount)

  unfoldable pub pause_contract : Action (World h.Tokens) (Unit {0})
  pause_contract = do
    reads_storage require_initialized
    admin ← reads_storage get_admin
    require_auth c admin
    modify_storage (set_paused true)

  unfoldable pub unpause_contract : Action (World h.Tokens) (Unit {0})
  unpause_contract = do
    reads_storage require_initialized
    admin ← reads_storage get_admin
    require_auth c admin
    modify_storage (set_paused false)

  unfoldable pub upgrade : ℕ → Action (World h.Tokens) (Unit {0})
  upgrade new_wasm_hash = do
    reads_storage require_initialized
    admin ← reads_storage get_admin
    require_auth c admin
    update_wasm new_wasm_hash
    emit (Event.upgrade admin new_wasm_hash c.now)
