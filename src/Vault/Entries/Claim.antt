-- ===== src/Vault/Entries/Claim.antt =====
-- `claim_rewards`, as a whole.
use axionvera_network.Base.{ℕ, ◌≤◌, ◌≡◌, true, false, some, arith}
use axionvera_network.Base.Int.{ℤ, pos, ◌≤ℤ◌}
use axionvera_network.Vault.Outcome.{ok, IsOk}
use axionvera_network.Vault.State.{Address, Storage}
use axionvera_network.Vault.Storage.{enter_non_reentrant, exit_non_reentrant}
use axionvera_network.Vault.World.{Host, Call, World}
use axionvera_network.Vault.Validation.{with_non_reentrant}
use axionvera_network.Vault.Ledger.{Ledger, staked, settle, paid}
use axionvera_network.Vault.Refinement.{Config, Represents}
use axionvera_network.Vault.Refinement.Accrual.{get_state_lem}
use axionvera_network.Vault.Entries.{with_guard, with_guard-Represents, leave-Represents}
use axionvera_network.Base.{◌⊎◌, ap, update}
use axionvera_network.Vault.Storage.{get_reward_token}
use axionvera_network.Vault.Operations.{store_claimable_rewards}
use axionvera_network.Vault.Contract.{claim_rewards}
use axionvera_network.Vault.Validation.{ensure_contract_balance}
use axionvera_network.Vault.Refinement.Claim.{claimable, store_claimable_rewards-Represents}

-- What a claim moves: nothing where nothing has vested, else the amount, which the vault holds.
abbrev pub Pays : (h : Host) → Call → Address → Address → ℤ → h.Tokens → h.Tokens → Type 0
Pays h c token user amount t t' =
    ((amount ≡ pos 0) × (t' ≡ t))
    ⊎ ((amount ≤ℤ h.balance token c.contract t)
        × (h.transfer token c.contract user amount t ≡ some t'))

pair_path : {A B : Type 0} {p : A × B} {a : A} → p.0 ≡ a → p ≡ (a, p.1)
pair_path {p = p} e = ap (λ x. (x, p.1)) e

pub get_reward_token_lem :
    (s : Storage) (k : Config) (l : Ledger)
    → Represents s k l
    → get_reward_token s ≡ ok k.reward_token
unfolding get_reward_token
get_reward_token_lem s k l r = ground (arith, get_state_lem s k l r)

module _ (h : Host) (c : Call) (w w' : World h.Tokens) (user : Address) (amount : ℤ) where
  claim_runs :
      (k : Config) (v : ℕ) (s : Storage)
      → store_claimable_rewards c.now user (with_guard true w.storage) ≡ (ok (pos v), s)
      → get_reward_token s ≡ ok k.reward_token
      → claim_rewards h c user w ≡ (ok amount, w')
      → (c.authorized user ≡ true)
        × (amount ≡ pos v)
        × Pays h c k.reward_token user amount w.tokens w'.tokens
        × (w'.storage ≡ with_guard false s)
  unfolding claim_rewards with_non_reentrant enter_non_reentrant exit_non_reentrant
      ensure_contract_balance
  claim_runs k v s e t d = ground arith

  claim_stores :
      claim_rewards h c user w ≡ (ok amount, w')
      → IsOk (store_claimable_rewards c.now user (with_guard true w.storage)).0
  unfolding claim_rewards with_non_reentrant enter_non_reentrant exit_non_reentrant
  claim_stores d = ground arith

  -- On a storage that stands for a ledger, in which the user's stake is at most the total and
  -- its index at most the global one, a claim that succeeds is authorized by the user, returns
  -- exactly what has vested of the settled rewards, transfers just that amount, which the vault
  -- holds, or nothing where it is zero, and leaves a storage that stands for the ledger with
  -- the amount taken from the rewards.
  pub claim_refines :
      (k : Config) (l : Ledger) (reserve : ℕ)
      → Represents w.storage k l
      → staked (l.accounts user) ≤ l.total
      → (l.accounts user).index ≤ l.index
      → claim_rewards h c user w ≡ (ok amount, w')
      → let v : ℕ = claimable c.now k.vesting_period (settle c.now l.index (l.accounts user)) in
        (c.authorized user ≡ true)
        × (amount ≡ pos v)
        × Pays h c k.reward_token user amount w.tokens w'.tokens
        × Represents w'.storage k (record l {
          reserve = reserve;
          accounts = update l.accounts user (paid c.now l.index v (l.accounts user));
        })
  claim_refines k l reserve r b i d =
      let s1 : Storage = with_guard true w.storage in
      let v : ℕ = claimable c.now k.vesting_period (settle c.now l.index (l.accounts user)) in
      let g : Represents s1 k l = with_guard-Represents true w.storage k l r in
      let (result, stands) =
        store_claimable_rewards-Represents s1 k l g c.now user reserve b i (claim_stores d) in
      let s2 : Storage = (store_claimable_rewards c.now user s1).1 in
      let (auth, number, pays, stored) =
        claim_runs k v s2 (pair_path result) (get_reward_token_lem s2 k _ stands) d in
      (auth, number, pays, leave-Represents s2 _ k _ stored stands)
