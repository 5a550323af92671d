-- ===== src/Vault/History/Backing.antt =====
-- After any history the vault can pay: its tokens cover the deposits and the rewards.
use axionvera_network.Base.{
  ℕ, ◌+◌, ◌*◌, ◌≤◌, ◌≡◌, ◌≢◌, refl, inl, inr, Bool-cases, ◌∙◌, true, List, [], ◌∷◌, All, arith,
  IsDistinct, IsListed,
}
use axionvera_network.Base.Int.{ℤ, pos, ◌≤ℤ◌}
use axionvera_network.Vault.Errors.{VaultError}
use axionvera_network.Vault.Outcome.{ok, err}
use axionvera_network.Vault.State.{Address, MultiplierPoint, Storage, empty_storage}
use axionvera_network.Vault.Storage.{get_total_deposits, require_initialized, require_not_paused}
use axionvera_network.Vault.Rewards.{precision_factor}
use axionvera_network.Vault.Previews.{pending_user_rewards_view}
use axionvera_network.Vault.World.{Host, Call, World}
use axionvera_network.Vault.Contract
use axionvera_network.Vault.Ledger.{Account, Ledger, staked, earned, settle}
use axionvera_network.Vault.Ledger.Sums.{sum_over, le-sum_over}
use axionvera_network.Vault.Ledger.Solvency.{owed}
use axionvera_network.Vault.Refinement.{Config, Represents}
use axionvera_network.Vault.Refinement.Accrual.{get_state_lem, position_lem}
use axionvera_network.Vault.Entries.Initialize.{
  initialize_runs, initialize_refines, empty_ledger, empty_ledger-IsSolvent,
}
use axionvera_network.Vault.History.{Moves, fair_rules}
use axionvera_network.Vault.History.Accounting.{staked-le-total}
use axionvera_network.Vault.History.Custody.{IsToken}
use axionvera_network.Vault.History.Kept.{IsKept}
use axionvera_network.Vault.Storage.{
  get_deposit_token, get_reward_token, enter_non_reentrant, exit_non_reentrant,
}
use axionvera_network.Vault.Operations.{store_claimable_rewards}
use axionvera_network.Vault.Validation.{with_non_reentrant, ensure_contract_balance}
use axionvera_network.Vault.Contract.{claim_rewards, pay_rewards}
use axionvera_network.Vault.Refinement.Claim.{
  claimable, claim_lem, claim_fits, write_claim, write_claim-Represents, vested-le,
}
use axionvera_network.Vault.Refinement.Accrual.{accrue_lem}
use axionvera_network.Vault.Entries.{with_guard, with_guard-Represents}
use axionvera_network.Vault.Entries.Claim.{get_reward_token_lem}
use axionvera_network.Vault.History.Promises.{get_total_deposits_lem}
use axionvera_network.Vault.History.Keeping.{Moves-IsKept}

-- A settled account holds no more than it was owed.
settled-owed :
    (index : ℕ) (a : Account) → (a.accrued + earned index a) * precision_factor ≤ owed index a
settled-owed index a = grind arith

-- So neither do all of them together.
settled-reserve :
    (index : ℕ) (g : Address → Account) (users : List Address)
    → sum_over (λ a. a.accrued + earned index a) g users * precision_factor
      ≤ sum_over (owed index) g users
settled-reserve index g [] = omega arith
settled-reserve index g (u ∷ users) =
    omega (arith, settled-owed index (g u), settled-reserve index g users)

sum_over_congr :
    (rewards : Address → ℕ) (index : ℕ) (g : Address → Account) (users : List Address)
    → ((u : Address) → IsListed u users → rewards u ≡ (g u).accrued + earned index (g u))
    → sum_over (λ n. n) rewards users ≡ sum_over (λ a. a.accrued + earned index a) g users
sum_over_congr rewards index g [] h = refl
sum_over_congr rewards index g (u ∷ users) h =
    omega (arith, h u (inl refl), sum_over_congr rewards index g users (λ v m. h v (inr m)))

-- The pending view shows the settled rewards.
pending_lem :
    (now : ℕ) (s : Storage) (k : Config) (l : Ledger) (u : Address) (n : ℕ)
    → Represents s k l
    → staked (l.accounts u) ≤ l.total
    → (l.accounts u).index ≤ l.index
    → pending_user_rewards_view now s u ≡ ok (pos n)
    → n ≡ (l.accounts u).accrued + earned l.index (l.accounts u)
unfolding pending_user_rewards_view
pending_lem now s k l u n r h i e = ground (
  arith,
  get_state_lem s k l r,
  position_lem s u (l.accounts u) (r.accounts u) (omega (arith, r.total_fits)),
  accrue_lem now k l (l.accounts u) i r.index_fits (r.accounts u).accrued_fits,
)

get_deposit_token_lem :
    (s : Storage) (k : Config) (l : Ledger)
    → Represents s k l
    → get_deposit_token s ≡ ok k.deposit_token
unfolding get_deposit_token
get_deposit_token_lem s k l r = ground (arith, get_state_lem s k l r)

-- A claim whose amount is held does not fail for want of tokens, and one that stores nothing fails
-- with another error.
claim_pays :
    (h : Host) (c : Call) (w : World h.Tokens) (u token : Address) (v : ℕ) (s : Storage)
    → store_claimable_rewards c.now u (with_guard true w.storage) ≡ (ok (pos v), s)
    → get_reward_token s ≡ ok token
    → pos v ≤ℤ h.balance token c.contract w.tokens
    → (claim_rewards h c u w).0 ≢ err VaultError.insufficient_contract_balance
unfolding claim_rewards with_non_reentrant enter_non_reentrant exit_non_reentrant
    ensure_contract_balance require_not_paused require_initialized
claim_pays h c w u token v s e f g = ground arith

claim_fails :
    (h : Host) (c : Call) (w : World h.Tokens) (u : Address) (s : Storage)
    → store_claimable_rewards c.now u (with_guard true w.storage)
      ≡ (err VaultError.math_overflow, s)
    → (claim_rewards h c u w).0 ≢ err VaultError.insufficient_contract_balance
unfolding claim_rewards with_non_reentrant enter_non_reentrant exit_non_reentrant require_not_paused
    require_initialized
claim_fails h c w u s e = ground arith

module _ (users : List Address) (distinct : IsDistinct users) (h : Host) (tok : IsToken h)
    (c : Call) (w w₁ w₂ : World h.Tokens) (admin deposit_token reward_token : Address)
    (vesting_period : ℕ) (target_deposits : ℤ) (multipliers : List MultiplierPoint)
    (fresh : w.storage ≡ empty_storage)
    (starts : Contract.initialize h c admin deposit_token reward_token vesting_period
        target_deposits multipliers w
      ≡ (ok tt, w₁))
    (modest : All (λ p. p.multiplier_bps ≤ 10000) multipliers)
    (moves : Moves h (fair_rules h c.contract users) w₁ w₂) where
  kept : IsKept users distinct h tok c.contract w₂
  kept =
      let (_, _, differ, _, still, _) =
        initialize_runs h c w w₁ admin deposit_token reward_token vesting_period target_deposits
          multipliers starts in
      let r =
        initialize_refines h c w w₁ admin deposit_token reward_token vesting_period target_deposits
          multipliers fresh starts in
      Moves-IsKept users distinct h tok c.contract moves (
        _,
        empty_ledger,
        r,
        empty_ledger-IsSolvent users,
        record { tokens_differ = differ; modest = modest },
        record {
          deposits_held = tok.nonneg deposit_token c.contract w₁.tokens;
          rewards_held = tok.nonneg reward_token c.contract w₁.tokens;
        },
      )

  -- After any history of a vault that was deployed and initialized, the vault's balance of the
  -- deposit token is at least the total deposits that it reports. The history is any sequence
  -- of calls of the entry points other than `upgrade` and `claim_rewards_for_asset`, with no
  -- withdrawal by asset of the deposit or the reward token, each undone where it fails, and of
  -- token changes elsewhere that take nothing from the vault. It is assumed that the token
  -- contracts move what they are told to, that no multiplier exceeds 10000 basis points, that
  -- the vault authorizes no call itself, that the amounts of `distribute_rewards` are i128, and
  -- that the users who act on the main accounts are listed once each.
  pub deposits_backed :
      (token : Address) (total : ℤ)
      → get_deposit_token w₂.storage ≡ ok token
      → get_total_deposits w₂.storage ≡ ok total
      → total ≤ℤ h.balance token c.contract w₂.tokens
  deposits_backed token total e f =
      let (k, l, r, s, p, held) = kept in
      let same : k.deposit_token ≡ token = cc (get_deposit_token_lem w₂.storage k l r, e) in
      let sum : pos l.total ≡ total = cc (get_total_deposits_lem w₂.storage k l r, f) in
      rw (← same, ← sum) held.deposits_held

  -- After any history of a vault that was deployed and initialized, the vault's balance of the
  -- reward token is at least the sum of the rewards that the pending view shows for the listed
  -- users, at any time at which the view succeeds for all of them. The history is any sequence
  -- of calls of the entry points other than `upgrade` and `claim_rewards_for_asset`, with no
  -- withdrawal by asset of the deposit or the reward token, each undone where it fails, and of
  -- token changes elsewhere that take nothing from the vault. It is assumed that the token
  -- contracts move what they are told to, that no multiplier exceeds 10000 basis points, that
  -- the vault authorizes no call itself, that the amounts of `distribute_rewards` are i128, and
  -- that the users who act on the main accounts are listed once each.
  pub rewards_backed :
      (token : Address) (now : ℕ) (rewards : Address → ℕ)
      → get_reward_token w₂.storage ≡ ok token
      → ((u : Address)
          → IsListed u users
          → pending_user_rewards_view now w₂.storage u ≡ ok (pos (rewards u)))
      → pos (sum_over (λ n. n) rewards users) ≤ℤ h.balance token c.contract w₂.tokens
  rewards_backed token now rewards e f =
      let (k, l, r, s, p, held) = kept in
      let same : k.reward_token ≡ token = cc (get_reward_token_lem w₂.storage k l r, e) in
      let sum = sum_over_congr rewards l.index l.accounts users (λ u m.
        pending_lem now w₂.storage k l u (rewards u) r (staked-le-total users l s u m) (s.behind u)
          (f u m)) in
      rw (← same)
        (omega (arith, sum, settled-reserve l.index l.accounts users, s.covered, held.rewards_held))

  -- After any history of a vault that was deployed and initialized, a claim of a listed user
  -- never fails with `InsufficientContractBalance`. The history is any sequence of calls of the
  -- entry points other than `upgrade` and `claim_rewards_for_asset`, with no withdrawal by
  -- asset of the deposit or the reward token, each undone where it fails, and of token changes
  -- elsewhere that take nothing from the vault. It is assumed that the token contracts move
  -- what they are told to, that no multiplier exceeds 10000 basis points, that the vault
  -- authorizes no call itself, that the amounts of `distribute_rewards` are i128, and that the
  -- users who act on the main accounts are listed once each.
  pub claim_never_short :
      (c' : Call) (u : Address)
      → c'.contract ≡ c.contract
      → IsListed u users
      → (claim_rewards h c' u w₂).0 ≢ err VaultError.insufficient_contract_balance
  claim_never_short c' u own m =
      let (k, l, r, s, p, held) = kept in
      let s1 : Storage = with_guard true w₂.storage in
      let g : Represents s1 k l = with_guard-Represents true w₂.storage k l r in
      let a : Account = settle c'.now l.index (l.accounts u) in
      let v : ℕ = claimable c'.now k.vesting_period a in
      let runs = claim_lem s1 k l g c'.now u (staked-le-total users l s u m) (s.behind u) in
      elim (Bool-cases (claim_fits c'.now k l (l.accounts u))) [
        | inl fits ↦
            claim_pays h c' w₂ u k.reward_token v (write_claim c'.now k l u s1) (runs ∙ rw fits)
              (get_reward_token_lem _ k _
                (write_claim-Represents s1 k l g c'.now u 0 (ground arith)))
              (rw own (
                omega (
                  arith,
                  vested-le c'.now k.vesting_period a.since a.accrued,
                  settled-owed l.index (l.accounts u),
                  le-sum_over (owed l.index) l.accounts u users m,
                  s.covered,
                  held.rewards_held,
                )))
        | inr stuck ↦ claim_fails h c' w₂ u s1 (runs ∙ rw stuck)
      ]
