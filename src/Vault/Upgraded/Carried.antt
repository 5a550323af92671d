-- ===== src/Vault/Upgraded/Carried.antt =====
-- What contracts/vault-contract-v2/src/lib.rs makes of the storage and the authority of the first
-- version.
use axionvera_network.Base.{ℕ, ◌≡◌, ◌∙◌, ap, none, refl, List, IsDistinct, IsListed, arith}
use axionvera_network.Base.Int.{ℤ, pos}
use axionvera_network.Vault.Outcome.{ok}
use axionvera_network.Vault.State.{Address, Storage, MultiplierPoint, empty_storage}
use axionvera_network.Vault.Storage.{get_total_deposits, get_user_balance, get_state}
use axionvera_network.Vault.World.{Host, Call, World}
use axionvera_network.Vault.Contract
use axionvera_network.Vault.Ledger.Sums.{sum_over}
use axionvera_network.Vault.History.{Moves, free_rules}
use axionvera_network.Vault.History.Unused.{Moves-unused, initialize_unused}
use axionvera_network.Vault.History.Promises.{total-eq-balances}
use axionvera_network.Vault.Upgraded.{carry_over, read_balance, read_total_deposits}

total_carried :
    (s : Storage) (total : ℤ)
    → get_total_deposits s ≡ ok total
    → read_total_deposits (carry_over s) ≡ total
unfolding get_total_deposits get_state read_total_deposits
total_carried s total e = ground arith

nothing_carried :
    (s : Storage) (u : Address) → s.user_balance u ≡ none → read_balance u (carry_over s) ≡ pos 0
unfolding read_balance
nothing_carried s u e = rw e refl

module _ (users : List Address) (distinct : IsDistinct users) (h : Host) (c : Call)
    (w w₁ w₂ : World h.Tokens) (admin deposit_token reward_token : Address) (vesting_period : ℕ)
    (target_deposits : ℤ) (multipliers : List MultiplierPoint) (fresh : w.storage ≡ empty_storage)
    (starts : Contract.initialize h c admin deposit_token reward_token vesting_period
        target_deposits multipliers w
      ≡ (ok tt, w₁))
    (moves : Moves h (free_rules h users) w₁ w₂) where
  -- After any history of a vault that was deployed and initialized, an upgrade to the second
  -- version leaves a total that is the sum of the users' balances in the first, while the
  -- second shows the balance of each as 0. The history is any sequence of calls of the entry
  -- points other than `upgrade`, those by asset included, each undone where it fails, and of
  -- any changes of the tokens. It is assumed that the amounts of `distribute_rewards` are i128
  -- and that the users who act on the main accounts are listed once each.
  pub upgrade_forgets :
      (balance : Address → ℕ) × ((u : Address)
        → IsListed u users
        → (get_user_balance w₂.storage u ≡ ok (pos (balance u)))
          × (read_balance u (carry_over w₂.storage) ≡ pos 0))
      × (read_total_deposits (carry_over w₂.storage) ≡ pos (sum_over (λ n. n) balance users))
  upgrade_forgets =
      let (balance, views, total) =
        total-eq-balances users distinct h c w w₁ w₂ admin deposit_token reward_token vesting_period
          target_deposits multipliers fresh starts moves in
      let unused : w₂.storage.user_balance ≡ w.storage.user_balance =
        Moves-unused h (free_rules h users) moves
        ∙ initialize_unused h c w w₁ admin deposit_token reward_token vesting_period target_deposits
            multipliers starts in
      (
        balance,
        λ u m. (
          views u m,
          nothing_carried w₂.storage u (ap (λ f. f u) unused ∙ ap (λ s. s.user_balance u) fresh),
        ),
        total_carried w₂.storage (pos (sum_over (λ n. n) balance users)) total,
      )
