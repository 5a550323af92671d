-- ===== src/Vault/History/Unused.antt =====
-- No entry point writes the key `UserBalance`.
use axionvera_network.Base.{ℕ, List, true, ◌≡◌, refl, ap, ◌∙◌, arith}
use axionvera_network.Base.Int.{ℤ}
use axionvera_network.Vault.Outcome.{ok}
use axionvera_network.Vault.State.{Address, Storage, MultiplierPoint, UserPosition}
use axionvera_network.Vault.Storage.{
  set_user_position, set_total_deposits, set_liquid_balance, set_user_locks, set_reward_index,
  initialize_state, set_admin, set_pending_admin, clear_pending_admin, set_paused,
  enter_non_reentrant, exit_non_reentrant,
}
use axionvera_network.Vault.Operations.{
  store_deposit, store_withdraw, store_reward_distribution, store_claimable_rewards,
}
use axionvera_network.Vault.Locks.{store_lock, unlock_expired_locks, store_unlocked}
use axionvera_network.Vault.Validation.{with_non_reentrant}
use axionvera_network.Vault.World.{Host, Call, World, invoke_rule}
use axionvera_network.Vault.Contract
use axionvera_network.Vault.Contract.{pay_rewards}
use axionvera_network.Vault.AssetContract
use axionvera_network.Vault.History.{
  Request, perform, Move, call, outside, Moves, here, next, Rules,
}
use axionvera_network.Vault.Entries.{with_guard}
use axionvera_network.Vault.History.ByAsset.{
  main_part, add_asset-beside, deposit_asset-beside, withdraw_asset-beside,
  distribute_rewards_for_asset-beside, claim_rewards_for_asset-beside,
}

module _ (now : ℕ) (user : Address) (s : Storage) where
  set_user_position-keeps :
      (p : UserPosition) → (set_user_position user p s).user_balance ≡ s.user_balance
  unfolding set_user_position
  set_user_position-keeps p = refl

  store_deposit-keeps :
      (amount : ℤ) → (store_deposit now user amount s).1.user_balance ≡ s.user_balance
  unfolding store_deposit set_user_position set_total_deposits set_liquid_balance
  store_deposit-keeps amount = ground arith

  unlock_expired_locks-keeps :
      (limit : ℕ) → (unlock_expired_locks now user limit s).1.user_balance ≡ s.user_balance
  unfolding unlock_expired_locks set_user_position set_total_deposits set_liquid_balance
      set_user_locks store_unlocked
  unlock_expired_locks-keeps limit = ground arith

  store_withdraw-keeps :
      (amount : ℤ) → (store_withdraw now user amount s).1.user_balance ≡ s.user_balance
  unfolding store_withdraw set_user_position set_total_deposits set_liquid_balance
  store_withdraw-keeps amount = ground (arith, unlock_expired_locks-keeps 5)

  store_lock-keeps :
      (amount : ℤ) (duration : ℕ)
      → (store_lock now user amount duration s).1.user_balance ≡ s.user_balance
  unfolding store_lock set_user_position set_liquid_balance set_user_locks
  store_lock-keeps amount duration = ground arith

  store_reward_distribution-keeps :
      (amount : ℤ) → (store_reward_distribution amount s).1.user_balance ≡ s.user_balance
  unfolding store_reward_distribution set_reward_index
  store_reward_distribution-keeps amount = ground arith

  store_claimable_rewards-keeps :
      (store_claimable_rewards now user s).1.user_balance ≡ s.user_balance
  unfolding store_claimable_rewards set_user_position
  store_claimable_rewards-keeps = ground arith

-- A successful call keeps what is under the key.
module _ (h : Host) (c : Call) (w w' : World h.Tokens) where
  propose_new_admin_unused :
      (a : Address)
      → Contract.propose_new_admin h c a w ≡ (ok tt, w')
      → w'.storage.user_balance ≡ w.storage.user_balance
  unfolding Contract.propose_new_admin set_pending_admin
  propose_new_admin_unused a d = ground arith

  accept_admin_unused :
      (a : Address)
      → Contract.accept_admin h c a w ≡ (ok tt, w')
      → w'.storage.user_balance ≡ w.storage.user_balance
  unfolding Contract.accept_admin set_admin clear_pending_admin
  accept_admin_unused a d = ground arith

  pause_contract_unused :
      Contract.pause_contract h c w ≡ (ok tt, w') → w'.storage.user_balance ≡ w.storage.user_balance
  unfolding Contract.pause_contract set_paused
  pause_contract_unused d = ground arith

  unpause_contract_unused :
      Contract.unpause_contract h c w ≡ (ok tt, w')
      → w'.storage.user_balance ≡ w.storage.user_balance
  unfolding Contract.unpause_contract set_paused
  unpause_contract_unused d = ground arith

  deposit_unused :
      (u : Address) (amount : ℤ)
      → Contract.deposit h c u amount w ≡ (ok tt, w')
      → w'.storage.user_balance ≡ w.storage.user_balance
  unfolding Contract.deposit with_non_reentrant enter_non_reentrant exit_non_reentrant
  deposit_unused u amount d =
      ground (arith, store_deposit-keeps c.now u (with_guard true w.storage) amount)

  withdraw_unused :
      (u : Address) (amount : ℤ)
      → Contract.withdraw h c u amount w ≡ (ok tt, w')
      → w'.storage.user_balance ≡ w.storage.user_balance
  unfolding Contract.withdraw with_non_reentrant enter_non_reentrant exit_non_reentrant
  withdraw_unused u amount d =
      ground (arith, store_withdraw-keeps c.now u (with_guard true w.storage) amount)

  lock_unused :
      (u : Address) (amount : ℤ) (duration : ℕ)
      → Contract.lock h c u amount duration w ≡ (ok tt, w')
      → w'.storage.user_balance ≡ w.storage.user_balance
  unfolding Contract.lock with_non_reentrant enter_non_reentrant exit_non_reentrant
  lock_unused u amount duration d =
      ground (arith, store_lock-keeps c.now u (with_guard true w.storage) amount duration)

  unlock_expired_unused :
      (u : Address) (limit : ℕ) (amount : ℤ)
      → Contract.unlock_expired h c u limit w ≡ (ok amount, w')
      → w'.storage.user_balance ≡ w.storage.user_balance
  unfolding Contract.unlock_expired with_non_reentrant enter_non_reentrant exit_non_reentrant
  unlock_expired_unused u limit amount d =
      ground (arith, unlock_expired_locks-keeps c.now u (with_guard true w.storage) limit)

  claim_rewards_unused :
      (u : Address) (amount : ℤ)
      → Contract.claim_rewards h c u w ≡ (ok amount, w')
      → w'.storage.user_balance ≡ w.storage.user_balance
  unfolding Contract.claim_rewards with_non_reentrant enter_non_reentrant exit_non_reentrant
      pay_rewards
  claim_rewards_unused u amount d =
      ground (arith, store_claimable_rewards-keeps c.now u (with_guard true w.storage))

  distribute_rewards_unused :
      (amount index : ℤ)
      → Contract.distribute_rewards h c amount w ≡ (ok index, w')
      → w'.storage.user_balance ≡ w.storage.user_balance
  unfolding Contract.distribute_rewards with_non_reentrant enter_non_reentrant exit_non_reentrant
  distribute_rewards_unused amount index d =
      ground
        (arith, store_reward_distribution-keeps c.now c.contract (with_guard true w.storage) amount)

-- What a call of the accounts by asset keeps includes the key.
beside_unused : (s s' : Storage) → main_part s' ≡ main_part s → s'.user_balance ≡ s.user_balance
beside_unused s s' e = ap (λ x. x.user_balance) e

-- So does `initialize`.
pub initialize_unused :
    (h : Host) (c : Call) (w w' : World h.Tokens) (admin deposit_token reward_token : Address)
    (vesting_period : ℕ) (target_deposits : ℤ) (multipliers : List MultiplierPoint)
    → Contract.initialize h c admin deposit_token reward_token vesting_period target_deposits
        multipliers w
      ≡ (ok tt, w')
    → w'.storage.user_balance ≡ w.storage.user_balance
unfolding Contract.initialize initialize_state
initialize_unused h c w w' admin deposit_token reward_token vesting_period target_deposits
      multipliers d =
    ground arith

module _ (h : Host) where
  module _ (c : Call) (w : World h.Tokens) where
    abbrev Keeps : World h.Tokens → Type 0
    Keeps v = v.storage.user_balance ≡ w.storage.user_balance

    perform_unused : (q : Request) → Keeps (perform h c q w)
    perform_unused
          (Request.initialize admin deposit_token reward_token vesting_period target_deposits
            multipliers) =
        invoke_rule Keeps
          (Contract.initialize h c admin deposit_token reward_token vesting_period target_deposits
            multipliers)
          w refl
          (λ _ w' d.
            initialize_unused h c w w' admin deposit_token reward_token vesting_period
              target_deposits multipliers d)
    perform_unused (Request.propose_new_admin a) =
        invoke_rule Keeps (Contract.propose_new_admin h c a) w refl
          (λ _ w' d. propose_new_admin_unused h c w w' a d)
    perform_unused (Request.accept_admin a) =
        invoke_rule Keeps (Contract.accept_admin h c a) w refl
          (λ _ w' d. accept_admin_unused h c w w' a d)
    perform_unused (Request.claim_rewards u) =
        invoke_rule Keeps (Contract.claim_rewards h c u) w refl
          (λ a w' d. claim_rewards_unused h c w w' u a d)
    perform_unused (Request.deposit u amount) =
        invoke_rule Keeps (Contract.deposit h c u amount) w refl
          (λ _ w' d. deposit_unused h c w w' u amount d)
    perform_unused (Request.withdraw u amount) =
        invoke_rule Keeps (Contract.withdraw h c u amount) w refl
          (λ _ w' d. withdraw_unused h c w w' u amount d)
    perform_unused (Request.distribute_rewards amount) =
        invoke_rule Keeps (Contract.distribute_rewards h c amount) w refl
          (λ a w' d. distribute_rewards_unused h c w w' amount a d)
    perform_unused (Request.lock u amount duration) =
        invoke_rule Keeps (Contract.lock h c u amount duration) w refl
          (λ _ w' d. lock_unused h c w w' u amount duration d)
    perform_unused (Request.unlock_expired u limit) =
        invoke_rule Keeps (Contract.unlock_expired h c u limit) w refl
          (λ a w' d. unlock_expired_unused h c w w' u limit a d)
    perform_unused Request.pause_contract =
        invoke_rule Keeps (Contract.pause_contract h c) w refl
          (λ _ w' d. pause_contract_unused h c w w' d)
    perform_unused Request.unpause_contract =
        invoke_rule Keeps (Contract.unpause_contract h c) w refl
          (λ _ w' d. unpause_contract_unused h c w w' d)
    perform_unused (Request.add_asset admin asset) =
        invoke_rule Keeps (AssetContract.add_asset h c admin asset) w refl
          (λ _ w' d. beside_unused w.storage w'.storage (add_asset-beside h c w w' admin asset d).0)
    perform_unused (Request.claim_rewards_for_asset u asset) =
        invoke_rule Keeps (AssetContract.claim_rewards_for_asset h c u asset) w refl (λ a w' d.
          beside_unused w.storage w'.storage (claim_rewards_for_asset-beside h c w w' u asset a d))
    perform_unused (Request.deposit_asset u asset amount) =
        invoke_rule Keeps (AssetContract.deposit_asset h c u asset amount) w refl (λ _ w' d.
          let (_, _, _, e) = deposit_asset-beside h c w w' u asset amount d in
          beside_unused w.storage w'.storage e)
    perform_unused (Request.withdraw_asset u asset amount) =
        invoke_rule Keeps (AssetContract.withdraw_asset h c u asset amount) w refl (λ _ w' d.
          let (_, _, _, e) = withdraw_asset-beside h c w w' u asset amount d in
          beside_unused w.storage w'.storage e)
    perform_unused (Request.distribute_rewards_for_asset admin asset amount) =
        invoke_rule Keeps (AssetContract.distribute_rewards_for_asset h c admin asset amount) w refl
          (λ a w' d.
            let (_, _, _, _, e) =
              distribute_rewards_for_asset-beside h c w w' admin asset amount a d in
            beside_unused w.storage w'.storage e)

  module _ (rules : Rules h) where
    Move-unused :
        (w w' : World h.Tokens)
        → Move h rules w w'
        → w'.storage.user_balance ≡ w.storage.user_balance
    Move-unused w w' (call c q m e) = rw e (perform_unused c w q)
    Move-unused w w' (outside tokens m e) = rw e refl

    -- So does any history.
    pub Moves-unused :
        {w w' : World h.Tokens}
        → Moves h rules w w'
        → w'.storage.user_balance ≡ w.storage.user_balance
    Moves-unused here = refl
    Moves-unused (next ms m) = Move-unused _ _ m ∙ Moves-unused ms
