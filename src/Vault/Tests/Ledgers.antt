-- ===== src/Vault/Tests/Ledgers.antt =====
-- The ledgers that the storages of one vault stand for, call after call.
use axionvera_network.Base.{◌≡◌, refl, true, false, arith}
use axionvera_network.Base.Int.{pos, ◌+ℤ◌, ◌-ℤ◌, ◌*ℤ◌, ◌/ℤ◌}
use axionvera_network.Base.I128.{
  checked_add_u64, wrapping_add, checked_mul_u128, checked_div_u128, checked_sub_u64, checked_add,
  checked_sub, checked_mul, checked_div,
}
use axionvera_network.Vault.Storage
use axionvera_network.Vault.Rewards
use axionvera_network.Vault.Locks
use axionvera_network.Vault.Operations
use axionvera_network.Vault.Validation
use axionvera_network.Vault.Contract
use axionvera_network.Base.{update}
use axionvera_network.Vault.Ledger.{Ledger, paid}
use axionvera_network.Vault.Refinement.{Config, Represents}
use axionvera_network.Vault.Refinement.Deposit
use axionvera_network.Vault.Refinement.Locking
use axionvera_network.Vault.Refinement.Distribute
use axionvera_network.Vault.Refinement.Distribute.{write_fund-Represents}
use axionvera_network.Vault.Entries.{with_guard, with_guard-Represents, leave-Represents}
use axionvera_network.Vault.Entries.Admin.{propose_refines, set_pending_admin-Represents}
use axionvera_network.Vault.Entries.Claim.{claim_refines}
use axionvera_network.Vault.Entries.Initialize.{config, empty_ledger, initialize_refines}
use axionvera_network.Vault.Entries.Deposit.{deposit_refines}
use axionvera_network.Vault.Entries.Locking.{lock_refines}
use axionvera_network.Vault.Tests.{
  host, at, owner, alice, bob, deposit_token, reward_token, points, deployed, opened, deposited,
  locked, funded, settled, proposed,
}
use axionvera_network.Vault.Tests.Runs.{
  opened_runs, deposited_runs, locked_runs, settled_runs, proposed_runs,
}

-- The ledgers.
abbrev pub settings : Config
settings = config owner deposit_token reward_token 100 (pos 2_000_000) points

abbrev pub deposited_ledger : Ledger
deposited_ledger = Deposit.deposited 1010 alice 1_000_000 empty_ledger

abbrev pub locked_ledger : Ledger
locked_ledger = Locking.locked_ledger 1020 alice 400_000 60 deposited_ledger

abbrev pub funded_ledger : Ledger
funded_ledger = Distribute.funded 160_000 160_000_000 locked_ledger

abbrev pub settled_ledger : Ledger
settled_ledger = record funded_ledger {
  accounts =
      update funded_ledger.accounts alice (paid 1080 160_000_000 0 (funded_ledger.accounts alice));
}

pub opened-Represents : Represents opened.storage settings empty_ledger
opened-Represents =
    initialize_refines host (at 1000) deployed opened owner deposit_token reward_token 100
      (pos 2_000_000) points refl opened_runs

pub deposited-Represents : Represents deposited.storage settings deposited_ledger
deposited-Represents =
    let (_, _, _, r) =
      deposit_refines host (at 1010) opened deposited alice (pos 1_000_000) settings empty_ledger
        opened-Represents (omega arith) (omega arith) deposited_runs in
    r

pub locked-Represents : Represents locked.storage settings locked_ledger
locked-Represents =
    let (_, _, _, _, r) =
      lock_refines host (at 1020) deposited locked alice (pos 400_000) 60 settings deposited_ledger
        deposited-Represents (omega arith) (omega arith) locked_runs in
    r

funded_storage :
    funded.storage
    ≡ with_guard false (Storage.set_reward_index (pos 160_000_000) (with_guard true locked.storage))
unfolding Storage.require_not_paused Storage.require_initialized Storage.is_initialized
    Storage.initialize_state Storage.get_state Storage.enter_non_reentrant
    Storage.exit_non_reentrant Storage.get_user_position_unchecked
    Storage.get_liquid_balance_unchecked Storage.get_user_locks_unchecked Storage.get_locked_balance
    Storage.sum_locks Storage.still_locked Storage.set_user_position Storage.set_total_deposits
    Storage.set_liquid_balance Storage.set_user_locks Storage.set_reward_index
    Storage.get_reward_token Storage.get_admin Validation.validate_distinct_token_addresses
    Validation.validate_utilization_multipliers Validation.check_sorted
    Validation.validate_positive_amount Validation.with_non_reentrant
    Validation.ensure_contract_balance Rewards.accrue_position_rewards Rewards.accrue_balance
    Rewards.credit_accrued Rewards.checked_accrued_rewards Rewards.checked_reward_index_increment
    Rewards.calculate_utilization_multiplier Rewards.select_multiplier Rewards.last_multiplier
    Rewards.calculate_vested_rewards Operations.store_deposit Operations.store_withdraw
    Operations.store_reward_distribution Operations.store_claimable_rewards
    Operations.effective_reward Locks.store_lock Locks.unlock_expired_locks Locks.unlock_locks
    Locks.unlock_loop Locks.store_unlocked Contract.initialize Contract.deposit Contract.lock
    Contract.distribute_rewards Contract.claim_rewards Contract.pay_rewards Contract.withdraw
    checked_add checked_sub checked_mul checked_div checked_mul_u128 checked_div_u128
    checked_add_u64 checked_sub_u64 wrapping_add ◌+ℤ◌ ◌-ℤ◌ ◌*ℤ◌ ◌/ℤ◌ Contract.unlock_expired
    Contract.propose_new_admin Contract.accept_admin Contract.pause_contract
    Contract.unpause_contract Contract.upgrade Storage.set_admin Storage.get_pending_admin
    Storage.set_pending_admin Storage.clear_pending_admin Storage.set_paused
funded_storage = refl

pub funded-Represents : Represents funded.storage settings funded_ledger
funded-Represents =
    let g : Represents (with_guard true locked.storage) settings locked_ledger =
      with_guard-Represents true locked.storage settings locked_ledger locked-Represents in
    leave-Represents _ _ settings funded_ledger funded_storage
      (write_fund-Represents _ settings locked_ledger g 160_000 160_000_000 (omega arith))

pub settled-Represents : Represents settled.storage settings settled_ledger
settled-Represents =
    let (_, _, _, r) =
      claim_refines host (at 1080) funded settled alice (pos 0) settings funded_ledger 160_000
        funded-Represents (omega arith) (omega arith) settled_runs in
    r

pub proposed-Represents : Represents proposed.storage settings deposited_ledger
proposed-Represents =
    let (_, e, _) =
      propose_refines host (at 1015) deposited proposed settings deposited_ledger
        deposited-Represents bob proposed_runs in
    rw e (
      set_pending_admin-Represents host (at 1015) deposited proposed settings deposited_ledger
        deposited-Represents bob)
