-- ===== src/Vault/Entries/Distribute.antt =====
-- `distribute_rewards`, as a whole.
use axionvera_network.Base.{ℕ, ◌*◌, ◌/◌, ◌<◌, ◌≤◌, ◌≡◌, true, false, some, arith}
use axionvera_network.Base.Int.{ℤ, pos, pos_part, ◌≤ℤ◌, pos-pos_part}
use axionvera_network.Base.I128.{i128_bound}
use axionvera_network.Vault.Outcome.{ok, IsOk}
use axionvera_network.Vault.State.{Storage}
use axionvera_network.Vault.Storage.{get_state, enter_non_reentrant, exit_non_reentrant}
use axionvera_network.Vault.World.{Host, Call, World}
use axionvera_network.Vault.Validation.{with_non_reentrant}
use axionvera_network.Vault.Ledger.{Ledger}
use axionvera_network.Vault.Refinement.{Config, vault_state, Represents}
use axionvera_network.Vault.Refinement.Accrual.{get_state_lem}
use axionvera_network.Vault.Entries.{with_guard, with_guard-Represents, leave-Represents}
use axionvera_network.Vault.Rewards.{precision_factor, calculate_utilization_multiplier}
use axionvera_network.Vault.Operations.{store_reward_distribution}
use axionvera_network.Vault.Contract.{distribute_rewards, min_reward_distribution}
use axionvera_network.Vault.Refinement.Distribute.{funded, store_reward_distribution-Represents}

module _ (h : Host) (c : Call) (w w' : World h.Tokens) (amount index : ℤ) where
  distribute_runs :
      (k : Config) (l : Ledger)
      → get_state w.storage ≡ ok (vault_state k l)
      → distribute_rewards h c amount w ≡ (ok index, w')
      → (min_reward_distribution ≤ℤ amount)
        × (c.authorized k.admin ≡ true)
        × (h.transfer k.reward_token k.admin c.contract amount w.tokens ≡ some w'.tokens)
        × IsOk (store_reward_distribution amount (with_guard true w.storage)).0
        × (w'.storage
            ≡ with_guard false (store_reward_distribution amount (with_guard true w.storage)).1)
  unfolding distribute_rewards with_non_reentrant enter_non_reentrant exit_non_reentrant
  distribute_runs k l e d = ground arith

  -- On a storage that stands for a ledger, a distribution of an i128 amount that succeeds is
  -- authorized by the admin, transfers the amount from the admin to the vault, and raises the
  -- index by an increment that, over the total, is worth no more than the amount scaled by the
  -- multiplier in force; the storage then stands for the ledger so funded.
  pub distribute_refines :
      (k : Config) (l : Ledger)
      → Represents w.storage k l
      → pos_part amount < i128_bound
      → distribute_rewards h c amount w ≡ (ok index, w')
      → (multiplier increment : ℕ) × (c.authorized k.admin ≡ true)
        × (amount ≡ pos (pos_part amount))
        × (h.transfer k.reward_token k.admin c.contract amount w.tokens ≡ some w'.tokens)
        × (calculate_utilization_multiplier
              (pos l.total)
              k.target_deposits
              k.utilization_multipliers
            ≡ ok multiplier)
        × (increment * l.total ≤ pos_part amount * multiplier / 10000 * precision_factor)
        × Represents w'.storage k (funded (pos_part amount * multiplier / 10000) increment l)
  distribute_refines k l r small d =
      let s1 : Storage = with_guard true w.storage in
      let g : Represents s1 k l = with_guard-Represents true w.storage k l r in
      let (enough, auth, moved, success, stored) = distribute_runs k l (get_state_lem _ k l r) d in
      let number : amount ≡ pos (pos_part amount) = pos-pos_part amount (omega arith) in
      let (m, i, e, fair, stands) =
        store_reward_distribution-Represents s1 k l g (pos_part amount) small
          (rw number at success) in
      (
        m,
        i,
        auth,
        number,
        moved,
        e,
        fair,
        leave-Represents (store_reward_distribution amount s1).1 _ k _ stored (rw number stands),
      )
