-- ===== src/Vault/Tests/HistoryExamples.antt =====
-- The theorems on histories, at a deposit, a lock, a distribution and two claims.
use axionvera_network.Base.{
  ℕ, ◌≡◌, ◌≢◌, refl, inl, inr, List, [], ◌∷◌, IsDistinct, IsListed, arith, if◌then◌else◌, ◌==◌,
}
use axionvera_network.Base.Int.{pos, ◌≤ℤ◌, ◌+ℤ◌, ◌-ℤ◌, ◌*ℤ◌, ◌/ℤ◌}
use axionvera_network.Base.I128.{
  wrapping_add, checked_add_u64, checked_mul_u128, checked_div_u128, checked_sub_u64, checked_add,
  checked_sub, checked_mul, checked_div,
}
use axionvera_network.Vault.Errors.{VaultError}
use axionvera_network.Vault.Outcome.{ok, err}
use axionvera_network.Vault.State.{Address}
use axionvera_network.Vault.Storage
use axionvera_network.Vault.Rewards
use axionvera_network.Vault.Locks
use axionvera_network.Vault.Operations
use axionvera_network.Vault.Validation
use axionvera_network.Vault.Contract
use axionvera_network.Vault.Previews
use axionvera_network.Vault.World.{World}
use axionvera_network.Vault.Upgraded.{carry_over, read_balance, read_total_deposits}
use axionvera_network.Vault.Upgraded.Carried.{upgrade_forgets}
use axionvera_network.Vault.Ledger.Sums.{sum_over}
use axionvera_network.Vault.History.{
  Request, perform, Moves, here, next, call, free_rules, fair_rules,
}
use axionvera_network.Vault.History.Promises.{total-eq-balances}
use axionvera_network.Vault.History.Backing.{deposits_backed, rewards_backed, claim_never_short}
use axionvera_network.Vault.Tests.{
  Table, host, host-IsToken, at, vault, owner, alice, bob, deposit_token, reward_token, points,
  deployed, opened,
}
use axionvera_network.Vault.Tests.Runs.{opened_runs}

abbrev users : List Address
users = alice ∷ bob ∷ []

users-IsDistinct : IsDistinct users
users-IsDistinct = ground arith

abbrev deposit_1 : World Table
deposit_1 = perform host (at 1010) (Request.deposit alice (pos 1_000_000)) opened

abbrev lock_2 : World Table
lock_2 = perform host (at 1020) (Request.lock alice (pos 400_000) 60) deposit_1

abbrev fund_3 : World Table
fund_3 = perform host (at 1030) (Request.distribute_rewards (pos 200_000)) lock_2

abbrev claim_4 : World Table
claim_4 = perform host (at 1080) (Request.claim_rewards alice) fund_3

abbrev claim_5 : World Table
claim_5 = perform host (at 1130) (Request.claim_rewards alice) claim_4

moves : Moves host (free_rules host users) opened claim_5
moves =
    next
      (next
        (next
          (next (next here (call (at 1010) (Request.deposit alice (pos 1_000_000)) (inl refl) refl))
            (call (at 1020) (Request.lock alice (pos 400_000) 60) (inl refl) refl))
          (call (at 1030) (Request.distribute_rewards (pos 200_000)) (omega arith) refl))
        (call (at 1080) (Request.claim_rewards alice) (inl refl) refl))
      (call (at 1130) (Request.claim_rewards alice) (inl refl) refl)

fair-Moves : Moves host (fair_rules host vault users) opened claim_5
fair-Moves =
    next
      (next
        (next
          (next
            (next here (
              call (at 1010) (Request.deposit alice (pos 1_000_000)) (refl, refl, inl refl, tt)
                refl))
            (call (at 1020) (Request.lock alice (pos 400_000) 60) (refl, refl, inl refl, tt) refl))
          (call (at 1030) (Request.distribute_rewards (pos 200_000)) (refl, refl, omega arith, tt)
            refl))
        (call (at 1080) (Request.claim_rewards alice) (refl, refl, inl refl, tt) refl))
      (call (at 1130) (Request.claim_rewards alice) (refl, refl, inl refl, tt) refl)

-- An asset is added, deposited, and its rewards claimed.
abbrev asset : Address
asset = 55

abbrev add_6 : World Table
add_6 = perform host (at 1140) (Request.add_asset owner asset) claim_5

abbrev deposit_7 : World Table
deposit_7 = perform host (at 1150) (Request.deposit_asset bob asset (pos 700)) add_6

abbrev claim_8 : World Table
claim_8 = perform host (at 1160) (Request.claim_rewards_for_asset bob asset) deposit_7

asset-Moves : Moves host (free_rules host users) opened claim_8
asset-Moves =
    next
      (next (next moves (call (at 1140) (Request.add_asset owner asset) tt refl))
        (call (at 1150) (Request.deposit_asset bob asset (pos 700)) tt refl))
      (call (at 1160) (Request.claim_rewards_for_asset bob asset) tt refl)

fair_asset-Moves : Moves host (fair_rules host vault users) opened deposit_7
fair_asset-Moves =
    next
      (next fair-Moves (call (at 1140) (Request.add_asset owner asset) (refl, refl, tt, tt) refl))
      (call (at 1150) (Request.deposit_asset bob asset (pos 700)) (refl, refl, tt, tt) refl)

-- Half of the rewards are paid, half are pending.
abbrev pending : Address → ℕ
pending u = if u == alice then 80_000 else 0

alice_pending : Previews.pending_user_rewards_view 1140 claim_5.storage alice ≡ ok (pos 80_000)
unfolding Storage.require_not_paused Storage.require_initialized Storage.is_initialized
    Storage.initialize_state Storage.get_state Storage.enter_non_reentrant
    Storage.exit_non_reentrant Storage.get_user_position_unchecked
    Storage.get_liquid_balance_unchecked Storage.get_user_locks_unchecked Storage.get_locked_balance
    Storage.sum_locks Storage.still_locked Storage.set_user_position Storage.set_total_deposits
    Storage.set_liquid_balance Storage.set_user_locks Storage.set_reward_index
    Storage.get_reward_token Storage.get_admin Validation.validate_distinct_token_addresses
    Validation.validate_utilization_multipliers Validation.check_sorted
    Validation.validate_positive_amount Validation.with_non_reentrant
    Validation.ensure_contract_balance Rewards.accrue_position_rewards Rewards.accrue_balance
    Rewards.credit_accrued Rewards.checked_accrued_rewards Rewards.checked_reward_index_increment
    Rewards.calculate_utilization_multiplier Rewards.select_multiplier Rewards.last_multiplier
    Rewards.calculate_vested_rewards Operations.store_deposit Operations.store_withdraw
    Operations.store_reward_distribution Operations.store_claimable_rewards
    Operations.effective_reward Locks.store_lock Locks.unlock_expired_locks Locks.unlock_locks
    Locks.unlock_loop Locks.store_unlocked Contract.initialize Contract.deposit Contract.lock
    Contract.distribute_rewards Contract.claim_rewards Contract.pay_rewards Contract.withdraw
    checked_add checked_sub checked_mul checked_div checked_mul_u128 checked_div_u128
    checked_add_u64 checked_sub_u64 wrapping_add ◌+ℤ◌ ◌-ℤ◌ ◌*ℤ◌ ◌/ℤ◌ Contract.unlock_expired
    Contract.propose_new_admin Contract.accept_admin Contract.pause_contract
    Contract.unpause_contract Contract.upgrade Storage.set_admin Storage.get_pending_admin
    Storage.set_pending_admin Storage.clear_pending_admin Storage.set_paused
    Previews.preview_user_rewards Previews.pending_user_rewards_view
alice_pending = refl

bob_pending : Previews.pending_user_rewards_view 1140 claim_5.storage bob ≡ ok (pos 0)
unfolding Storage.require_not_paused Storage.require_initialized Storage.is_initialized
    Storage.initialize_state Storage.get_state Storage.enter_non_reentrant
    Storage.exit_non_reentrant Storage.get_user_position_unchecked
    Storage.get_liquid_balance_unchecked Storage.get_user_locks_unchecked Storage.get_locked_balance
    Storage.sum_locks Storage.still_locked Storage.set_user_position Storage.set_total_deposits
    Storage.set_liquid_balance Storage.set_user_locks Storage.set_reward_index
    Storage.get_reward_token Storage.get_admin Validation.validate_distinct_token_addresses
    Validation.validate_utilization_multipliers Validation.check_sorted
    Validation.validate_positive_amount Validation.with_non_reentrant
    Validation.ensure_contract_balance Rewards.accrue_position_rewards Rewards.accrue_balance
    Rewards.credit_accrued Rewards.checked_accrued_rewards Rewards.checked_reward_index_increment
    Rewards.calculate_utilization_multiplier Rewards.select_multiplier Rewards.last_multiplier
    Rewards.calculate_vested_rewards Operations.store_deposit Operations.store_withdraw
    Operations.store_reward_distribution Operations.store_claimable_rewards
    Operations.effective_reward Locks.store_lock Locks.unlock_expired_locks Locks.unlock_locks
    Locks.unlock_loop Locks.store_unlocked Contract.initialize Contract.deposit Contract.lock
    Contract.distribute_rewards Contract.claim_rewards Contract.pay_rewards Contract.withdraw
    checked_add checked_sub checked_mul checked_div checked_mul_u128 checked_div_u128
    checked_add_u64 checked_sub_u64 wrapping_add ◌+ℤ◌ ◌-ℤ◌ ◌*ℤ◌ ◌/ℤ◌ Contract.unlock_expired
    Contract.propose_new_admin Contract.accept_admin Contract.pause_contract
    Contract.unpause_contract Contract.upgrade Storage.set_admin Storage.get_pending_admin
    Storage.set_pending_admin Storage.clear_pending_admin Storage.set_paused
    Previews.preview_user_rewards Previews.pending_user_rewards_view
bob_pending = refl

pending_runs :
    (u : Address)
    → IsListed u users
    → Previews.pending_user_rewards_view 1140 claim_5.storage u ≡ ok (pos (pending u))
pending_runs u (inl e) = rw e alice_pending
pending_runs u (inr (inl e)) = rw e bob_pending
pending_runs u (inr (inr e)) = absurd e

deposit_token_runs : Storage.get_deposit_token claim_5.storage ≡ ok deposit_token
unfolding Storage.get_deposit_token Storage.require_not_paused Storage.require_initialized
    Storage.is_initialized Storage.initialize_state Storage.get_state Storage.enter_non_reentrant
    Storage.exit_non_reentrant Storage.get_user_position_unchecked
    Storage.get_liquid_balance_unchecked Storage.get_user_locks_unchecked Storage.get_locked_balance
    Storage.sum_locks Storage.still_locked Storage.set_user_position Storage.set_total_deposits
    Storage.set_liquid_balance Storage.set_user_locks Storage.set_reward_index
    Storage.get_reward_token Storage.get_admin Validation.validate_distinct_token_addresses
    Validation.validate_utilization_multipliers Validation.check_sorted
    Validation.validate_positive_amount Validation.with_non_reentrant
    Validation.ensure_contract_balance Rewards.accrue_position_rewards Rewards.accrue_balance
    Rewards.credit_accrued Rewards.checked_accrued_rewards Rewards.checked_reward_index_increment
    Rewards.calculate_utilization_multiplier Rewards.select_multiplier Rewards.last_multiplier
    Rewards.calculate_vested_rewards Operations.store_deposit Operations.store_withdraw
    Operations.store_reward_distribution Operations.store_claimable_rewards
    Operations.effective_reward Locks.store_lock Locks.unlock_expired_locks Locks.unlock_locks
    Locks.unlock_loop Locks.store_unlocked Contract.initialize Contract.deposit Contract.lock
    Contract.distribute_rewards Contract.claim_rewards Contract.pay_rewards Contract.withdraw
    checked_add checked_sub checked_mul checked_div checked_mul_u128 checked_div_u128
    checked_add_u64 checked_sub_u64 wrapping_add ◌+ℤ◌ ◌-ℤ◌ ◌*ℤ◌ ◌/ℤ◌ Contract.unlock_expired
    Contract.propose_new_admin Contract.accept_admin Contract.pause_contract
    Contract.unpause_contract Contract.upgrade Storage.set_admin Storage.get_pending_admin
    Storage.set_pending_admin Storage.clear_pending_admin Storage.set_paused
deposit_token_runs = refl

reward_token_runs : Storage.get_reward_token claim_5.storage ≡ ok reward_token
unfolding Storage.get_deposit_token Storage.require_not_paused Storage.require_initialized
    Storage.is_initialized Storage.initialize_state Storage.get_state Storage.enter_non_reentrant
    Storage.exit_non_reentrant Storage.get_user_position_unchecked
    Storage.get_liquid_balance_unchecked Storage.get_user_locks_unchecked Storage.get_locked_balance
    Storage.sum_locks Storage.still_locked Storage.set_user_position Storage.set_total_deposits
    Storage.set_liquid_balance Storage.set_user_locks Storage.set_reward_index
    Storage.get_reward_token Storage.get_admin Validation.validate_distinct_token_addresses
    Validation.validate_utilization_multipliers Validation.check_sorted
    Validation.validate_positive_amount Validation.with_non_reentrant
    Validation.ensure_contract_balance Rewards.accrue_position_rewards Rewards.accrue_balance
    Rewards.credit_accrued Rewards.checked_accrued_rewards Rewards.checked_reward_index_increment
    Rewards.calculate_utilization_multiplier Rewards.select_multiplier Rewards.last_multiplier
    Rewards.calculate_vested_rewards Operations.store_deposit Operations.store_withdraw
    Operations.store_reward_distribution Operations.store_claimable_rewards
    Operations.effective_reward Locks.store_lock Locks.unlock_expired_locks Locks.unlock_locks
    Locks.unlock_loop Locks.store_unlocked Contract.initialize Contract.deposit Contract.lock
    Contract.distribute_rewards Contract.claim_rewards Contract.pay_rewards Contract.withdraw
    checked_add checked_sub checked_mul checked_div checked_mul_u128 checked_div_u128
    checked_add_u64 checked_sub_u64 wrapping_add ◌+ℤ◌ ◌-ℤ◌ ◌*ℤ◌ ◌/ℤ◌ Contract.unlock_expired
    Contract.propose_new_admin Contract.accept_admin Contract.pause_contract
    Contract.unpause_contract Contract.upgrade Storage.set_admin Storage.get_pending_admin
    Storage.set_pending_admin Storage.clear_pending_admin Storage.set_paused
reward_token_runs = refl

total_runs : Storage.get_total_deposits claim_5.storage ≡ ok (pos 1_000_000)
unfolding Storage.get_total_deposits Storage.require_not_paused Storage.require_initialized
    Storage.is_initialized Storage.initialize_state Storage.get_state Storage.enter_non_reentrant
    Storage.exit_non_reentrant Storage.get_user_position_unchecked
    Storage.get_liquid_balance_unchecked Storage.get_user_locks_unchecked Storage.get_locked_balance
    Storage.sum_locks Storage.still_locked Storage.set_user_position Storage.set_total_deposits
    Storage.set_liquid_balance Storage.set_user_locks Storage.set_reward_index
    Storage.get_reward_token Storage.get_admin Validation.validate_distinct_token_addresses
    Validation.validate_utilization_multipliers Validation.check_sorted
    Validation.validate_positive_amount Validation.with_non_reentrant
    Validation.ensure_contract_balance Rewards.accrue_position_rewards Rewards.accrue_balance
    Rewards.credit_accrued Rewards.checked_accrued_rewards Rewards.checked_reward_index_increment
    Rewards.calculate_utilization_multiplier Rewards.select_multiplier Rewards.last_multiplier
    Rewards.calculate_vested_rewards Operations.store_deposit Operations.store_withdraw
    Operations.store_reward_distribution Operations.store_claimable_rewards
    Operations.effective_reward Locks.store_lock Locks.unlock_expired_locks Locks.unlock_locks
    Locks.unlock_loop Locks.store_unlocked Contract.initialize Contract.deposit Contract.lock
    Contract.distribute_rewards Contract.claim_rewards Contract.pay_rewards Contract.withdraw
    checked_add checked_sub checked_mul checked_div checked_mul_u128 checked_div_u128
    checked_add_u64 checked_sub_u64 wrapping_add ◌+ℤ◌ ◌-ℤ◌ ◌*ℤ◌ ◌/ℤ◌ Contract.unlock_expired
    Contract.propose_new_admin Contract.accept_admin Contract.pause_contract
    Contract.unpause_contract Contract.upgrade Storage.set_admin Storage.get_pending_admin
    Storage.set_pending_admin Storage.clear_pending_admin Storage.set_paused
total_runs = refl

deposits_backed_example : pos 1_000_000 ≤ℤ host.balance deposit_token vault claim_5.tokens
deposits_backed_example =
    deposits_backed users users-IsDistinct host host-IsToken (at 1000) deployed opened claim_5 owner
      deposit_token reward_token 100 (pos 2_000_000) points refl opened_runs (omega arith)
      fair-Moves deposit_token (pos 1_000_000) deposit_token_runs total_runs

rewards_backed_example :
    pos (sum_over (λ n. n) pending users) ≤ℤ host.balance reward_token vault claim_5.tokens
rewards_backed_example =
    rewards_backed users users-IsDistinct host host-IsToken (at 1000) deployed opened claim_5 owner
      deposit_token reward_token 100 (pos 2_000_000) points refl opened_runs (omega arith)
      fair-Moves reward_token 1140 pending reward_token_runs pending_runs

claim_never_short_example :
    (Contract.claim_rewards host (at 1180) alice deposit_7).0
    ≢ err VaultError.insufficient_contract_balance
claim_never_short_example =
    claim_never_short users users-IsDistinct host host-IsToken (at 1000) deployed opened deposit_7
      owner deposit_token reward_token 100 (pos 2_000_000) points refl opened_runs (omega arith)
      fair_asset-Moves (at 1180) alice refl (inl refl)

total-eq-balances_example :
    (balance : Address → ℕ) × ((u : Address)
      → IsListed u users
      → Storage.get_user_balance claim_8.storage u ≡ ok (pos (balance u)))
    × (Storage.get_total_deposits claim_8.storage ≡ ok (pos (sum_over (λ n. n) balance users)))
total-eq-balances_example =
    total-eq-balances users users-IsDistinct host (at 1000) deployed opened claim_8 owner
      deposit_token reward_token 100 (pos 2_000_000) points refl opened_runs asset-Moves

upgrade_forgets_example :
    (balance : Address → ℕ) × ((u : Address)
      → IsListed u users
      → (Storage.get_user_balance claim_8.storage u ≡ ok (pos (balance u)))
        × (read_balance u (carry_over claim_8.storage) ≡ pos 0))
    × (read_total_deposits (carry_over claim_8.storage) ≡ pos (sum_over (λ n. n) balance users))
upgrade_forgets_example =
    upgrade_forgets users users-IsDistinct host (at 1000) deployed opened claim_8 owner
      deposit_token reward_token 100 (pos 2_000_000) points refl opened_runs asset-Moves
