-- ===== src/Vault/History/Promises.antt =====
-- What holds after any history of a vault that was deployed and initialized.
use axionvera_network.Base.{ℕ, ◌≤◌, ◌≡◌, ap, ◌∙◌, List, arith, IsDistinct, IsListed}
use axionvera_network.Base.Int.{ℤ, pos}
use axionvera_network.Vault.Outcome.{ok}
use axionvera_network.Vault.State.{Address, MultiplierPoint, Storage, empty_storage}
use axionvera_network.Vault.Storage.{get_total_deposits, get_user_balance}
use axionvera_network.Vault.World.{Host, Call, World}
use axionvera_network.Vault.Contract
use axionvera_network.Vault.Ledger.{Ledger, staked}
use axionvera_network.Vault.Ledger.Sums.{sum_over, sum_over-map}
use axionvera_network.Vault.Refinement.{Config, Represents}
use axionvera_network.Vault.Refinement.Accrual.{get_state_lem, position_lem}
use axionvera_network.Vault.Entries.Initialize.{
  initialize_refines, empty_ledger, empty_ledger-IsSolvent,
}
use axionvera_network.Vault.History.{Moves, free_rules}
use axionvera_network.Vault.History.Accounting.{staked-le-total}
use axionvera_network.Vault.History.Sound.{Moves-IsSound}

-- What a user's balance view and the total say of a storage that stands for a ledger.
get_user_balance_lem :
    (s : Storage) (k : Config) (l : Ledger) (u : Address)
    → Represents s k l
    → staked (l.accounts u) ≤ l.total
    → get_user_balance s u ≡ ok (pos (staked (l.accounts u)))
unfolding get_user_balance
get_user_balance_lem s k l u r h =
    ground (
      arith,
      position_lem s u (l.accounts u) (r.accounts u) (omega (arith, r.total_fits)),
      r.config,
    )

pub get_total_deposits_lem :
    (s : Storage) (k : Config) (l : Ledger)
    → Represents s k l
    → get_total_deposits s ≡ ok (pos l.total)
unfolding get_total_deposits
get_total_deposits_lem s k l r = ground (arith, get_state_lem s k l r)

module _ (users : List Address) (distinct : IsDistinct users) (h : Host) (c : Call)
    (w w₁ w₂ : World h.Tokens) (admin deposit_token reward_token : Address) (vesting_period : ℕ)
    (target_deposits : ℤ) (multipliers : List MultiplierPoint) (fresh : w.storage ≡ empty_storage)
    (starts : Contract.initialize h c admin deposit_token reward_token vesting_period
        target_deposits multipliers w
      ≡ (ok tt, w₁))
    (moves : Moves h (free_rules h users) w₁ w₂) where
  -- After any history of a vault that was deployed and initialized, the balance view succeeds
  -- for every listed user, and the total deposits are the sum of these balances. The history is
  -- any sequence of calls of the entry points other than `upgrade`, those by asset included,
  -- each undone where it fails, and of any changes of the tokens, whatever the token contracts
  -- do and whoever authorizes the calls. It is assumed that the amounts of `distribute_rewards`
  -- are i128 and that the users who act on the main accounts are listed once each.
  pub total-eq-balances :
      (balance : Address → ℕ) × ((u : Address)
        → IsListed u users
        → get_user_balance w₂.storage u ≡ ok (pos (balance u)))
      × (get_total_deposits w₂.storage ≡ ok (pos (sum_over (λ n. n) balance users)))
  total-eq-balances =
      let r₁ =
        initialize_refines h c w w₁ admin deposit_token reward_token vesting_period target_deposits
          multipliers fresh starts in
      let (k, l, r, s) =
        Moves-IsSound users distinct h moves (_, empty_ledger, r₁, empty_ledger-IsSolvent users) in
      (
        λ u. staked (l.accounts u),
        λ u m. get_user_balance_lem w₂.storage k l u r (staked-le-total users l s u m),
        get_total_deposits_lem w₂.storage k l r
            ∙ ap (λ n. ok (pos n)) (s.backed ∙ sum_over-map staked l.accounts users),
      )
