-- ===== src/Vault/Tests/GuardExamples.antt =====
-- The theorems on the guards, at worlds where they hold and a call that only some have authorized.
use axionvera_network.Base.{ℕ, ◌≡◌, ◌≢◌, refl, true, false, some, arith, ◌==◌}
use axionvera_network.Base.Int.{ℤ, ◌+ℤ◌, ◌-ℤ◌, ◌*ℤ◌, ◌/ℤ◌}
use axionvera_network.Base.I128.{
  wrapping_add, checked_add_u64, checked_mul_u128, checked_div_u128, checked_sub_u64, checked_add,
  checked_sub, checked_mul, checked_div,
}
use axionvera_network.Vault.Errors.{VaultError}
use axionvera_network.Vault.Outcome.{ok, err, panic}
use axionvera_network.Vault.Action.{pure}
use axionvera_network.Vault.State.{Address}
use axionvera_network.Vault.Storage
use axionvera_network.Vault.Rewards
use axionvera_network.Vault.Locks
use axionvera_network.Vault.Operations
use axionvera_network.Vault.Validation
use axionvera_network.Vault.Contract
use axionvera_network.Vault.AssetContract
use axionvera_network.Vault.World.{Call, World}
use axionvera_network.Vault.Guards.Reentrancy.{Refused, reentrant-Refused}
use axionvera_network.Vault.Guards.Pause.{paused_refuses}
use axionvera_network.Vault.Guards.Access.{unauthorized_user-Refused, unauthorized_admin-Refused}
use axionvera_network.Vault.Tests.{Table, host, at, vault, owner, alice, bob, opened}

-- The opened vault with the guard held, and with the contract paused.
abbrev held : World Table
held = record opened { storage = record opened.storage { reentrancy_guard = some true } }

abbrev free : World Table
free = record opened { storage = record opened.storage { reentrancy_guard = some false } }

abbrev frozen : World Table
frozen = record opened { storage = record opened.storage { is_paused = some true } }

abbrev running : World Table
running = record opened {
  storage = record opened.storage { initialized = some true; is_paused = some false };
}

-- Only Bob has authorized this call.
abbrev by_bob : Call
by_bob = record { now = 1200; contract = vault; authorized = λ a. a == bob }

body_ends : (Validation.with_non_reentrant {T = Table} {A = ℕ} (pure 5) free).0 ≢ panic
unfolding Validation.with_non_reentrant Storage.enter_non_reentrant Storage.exit_non_reentrant
body_ends = ground arith

reentrant-Refused_example :
    ((user : Address) (amount : ℤ) → Refused (Contract.deposit host (at 1200) user amount) held)
    × ((user : Address) (amount : ℤ) → Refused (Contract.withdraw host (at 1200) user amount) held)
    × ((amount : ℤ) → Refused (Contract.distribute_rewards host (at 1200) amount) held)
    × ((user : Address) (amount : ℤ) (duration : ℕ)
        → Refused (Contract.lock host (at 1200) user amount duration) held)
    × ((user : Address) (limit : ℕ)
        → Refused (Contract.unlock_expired host (at 1200) user limit) held)
    × ((user : Address) → Refused (Contract.claim_rewards host (at 1200) user) held)
reentrant-Refused_example = reentrant-Refused host (at 1200) held refl

paused_refuses_example :
    ((user : Address) (amount : ℤ)
      → Contract.deposit host (at 1200) user amount frozen ≡ (err VaultError.unauthorized, frozen))
    × ((user : Address) (amount : ℤ)
        → Contract.withdraw host (at 1200) user amount frozen
          ≡ (err VaultError.unauthorized, frozen))
    × ((user : Address) (amount : ℤ) (duration : ℕ)
        → Contract.lock host (at 1200) user amount duration frozen
          ≡ (err VaultError.unauthorized, frozen))
    × ((user : Address) (limit : ℕ)
        → Contract.unlock_expired host (at 1200) user limit frozen
          ≡ (err VaultError.unauthorized, frozen))
    × ((user : Address)
        → Contract.claim_rewards host (at 1200) user frozen ≡ (err VaultError.unauthorized, frozen))
    × ((user asset : Address) (amount : ℤ)
        → AssetContract.deposit_asset host (at 1200) user asset amount frozen
          ≡ (err VaultError.unauthorized, frozen))
    × ((user asset : Address) (amount : ℤ)
        → AssetContract.withdraw_asset host (at 1200) user asset amount frozen
          ≡ (err VaultError.unauthorized, frozen))
    × ((user asset : Address)
        → AssetContract.claim_rewards_for_asset host (at 1200) user asset frozen
          ≡ (err VaultError.unauthorized, frozen))
paused_refuses_example = paused_refuses host (at 1200) frozen refl

unauthorized_user-Refused_example :
    ((amount : ℤ) → Refused (Contract.deposit host by_bob alice amount) opened)
    × ((amount : ℤ) → Refused (Contract.withdraw host by_bob alice amount) opened)
    × ((amount : ℤ) (duration : ℕ)
        → Refused (Contract.lock host by_bob alice amount duration) opened)
    × ((limit : ℕ) → Refused (Contract.unlock_expired host by_bob alice limit) opened)
    × Refused (Contract.claim_rewards host by_bob alice) opened
    × ((asset : Address) (amount : ℤ)
        → Refused (AssetContract.deposit_asset host by_bob alice asset amount) opened)
    × ((asset : Address) (amount : ℤ)
        → Refused (AssetContract.withdraw_asset host by_bob alice asset amount) opened)
    × ((asset : Address)
        → Refused (AssetContract.claim_rewards_for_asset host by_bob alice asset) opened)
unauthorized_user-Refused_example = unauthorized_user-Refused host by_bob opened alice refl

owner_runs : Storage.get_admin opened.storage ≡ ok owner
unfolding Storage.require_not_paused Storage.require_initialized Storage.is_initialized
    Storage.initialize_state Storage.get_state Storage.enter_non_reentrant
    Storage.exit_non_reentrant Storage.get_user_position_unchecked
    Storage.get_liquid_balance_unchecked Storage.get_user_locks_unchecked Storage.get_locked_balance
    Storage.sum_locks Storage.still_locked Storage.set_user_position Storage.set_total_deposits
    Storage.set_liquid_balance Storage.set_user_locks Storage.set_reward_index
    Storage.get_reward_token Storage.get_admin Validation.validate_distinct_token_addresses
    Validation.validate_utilization_multipliers Validation.check_sorted
    Validation.validate_positive_amount Validation.with_non_reentrant
    Validation.ensure_contract_balance Rewards.accrue_position_rewards Rewards.accrue_balance
    Rewards.credit_accrued Rewards.checked_accrued_rewards Rewards.checked_reward_index_increment
    Rewards.calculate_utilization_multiplier Rewards.select_multiplier Rewards.last_multiplier
    Rewards.calculate_vested_rewards Operations.store_deposit Operations.store_withdraw
    Operations.store_reward_distribution Operations.store_claimable_rewards
    Operations.effective_reward Locks.store_lock Locks.unlock_expired_locks Locks.unlock_locks
    Locks.unlock_loop Locks.store_unlocked Contract.initialize Contract.deposit Contract.lock
    Contract.distribute_rewards Contract.claim_rewards Contract.pay_rewards Contract.withdraw
    checked_add checked_sub checked_mul checked_div checked_mul_u128 checked_div_u128
    checked_add_u64 checked_sub_u64 wrapping_add ◌+ℤ◌ ◌-ℤ◌ ◌*ℤ◌ ◌/ℤ◌ Contract.unlock_expired
    Contract.propose_new_admin Contract.accept_admin Contract.pause_contract
    Contract.unpause_contract Contract.upgrade Storage.set_admin Storage.get_pending_admin
    Storage.set_pending_admin Storage.clear_pending_admin Storage.set_paused
owner_runs = refl

unauthorized_admin-Refused_example :
    ((new_admin : Address) → Refused (Contract.propose_new_admin host by_bob new_admin) opened)
    × ((amount : ℤ) → Refused (Contract.distribute_rewards host by_bob amount) opened)
    × Refused (Contract.pause_contract host by_bob) opened
    × Refused (Contract.unpause_contract host by_bob) opened
    × ((hash : ℕ) → Refused (Contract.upgrade host by_bob hash) opened)
    × ((caller asset : Address) → Refused (AssetContract.add_asset host by_bob caller asset) opened)
    × ((caller asset : Address) (amount : ℤ)
        → Refused
            (AssetContract.distribute_rewards_for_asset host by_bob caller asset amount)
            opened)
unauthorized_admin-Refused_example =
    unauthorized_admin-Refused host by_bob opened owner owner_runs refl
