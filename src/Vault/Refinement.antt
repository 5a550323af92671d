-- ===== src/Vault/Refinement.antt =====
-- How the contract's storage stands for a ledger: the numbers under its keys are those of the
-- ledger and in range, and the positions that it computes are those of the accounts.
pub mod Accrual
pub mod Deposit
pub mod Unlocking
pub mod Withdraw
pub mod Locking
pub mod Claim
pub mod Distribute
use axionvera_network.Base.{
  ℕ, ◌+◌, ◌*◌, ◌-◌, ◌<◌, ◌≡◌, Bool, true, ◌&&◌, some, List, [], map, ltb, get_or,
}
use axionvera_network.Base.Int.{ℤ, pos}
use axionvera_network.Base.I128.{i128_bound}
use axionvera_network.Vault.State.{
  Address, MultiplierPoint, Lock, VaultState, UserPosition, Storage,
}
use axionvera_network.Vault.Ledger.{Account, TimeLock, Ledger, staked, earned}

-- What the operations read and do not change.
pub record Config : Type 0 where
  pub admin : Address
  pub deposit_token : Address
  pub reward_token : Address
  pub vesting_period : ℕ
  pub target_deposits : ℤ
  pub utilization_multipliers : List MultiplierPoint

abbrev pub to_lock : TimeLock → Lock
to_lock l = record {
  amount = pos l.amount;
  unlock_timestamp = l.unlock_timestamp;
  reward_multiplier = 0;
}

abbrev pub position : Account → UserPosition
position a = record {
  balance = pos (staked a);
  reward_index = pos a.index;
  accrued_rewards = pos a.accrued;
  last_reward_timestamp = a.since;
}

abbrev pub vault_state : Config → Ledger → VaultState
vault_state c l = record {
  admin = c.admin;
  deposit_token = c.deposit_token;
  reward_token = c.reward_token;
  total_deposits = pos l.total;
  reward_index = pos l.index;
  vesting_period = c.vesting_period;
  target_deposits = c.target_deposits;
  utilization_multipliers = c.utilization_multipliers;
}

pub record IsConfigured (s : Storage) (c : Config) : Type 0 where
  pub initialized : s.initialized ≡ some true
  pub admin : s.admin ≡ some c.admin
  pub deposit_token : s.deposit_token ≡ some c.deposit_token
  pub reward_token : s.reward_token ≡ some c.reward_token
  pub vesting_period : get_or s.vesting_period 0 ≡ c.vesting_period
  pub target_deposits : get_or s.target_deposits (pos 0) ≡ c.target_deposits
  pub utilization_multipliers : get_or s.utilization_multipliers [] ≡ c.utilization_multipliers

pub record IsAccount (s : Storage) (u : Address) (a : Account) : Type 0 where
  pub liquid : get_or (s.user_liquid_balance u) (pos 0) ≡ pos a.liquid
  pub locks : get_or (s.user_locks u) [] ≡ map to_lock a.locks
  pub index : get_or (s.user_reward_index u) (pos 0) ≡ pos a.index
  pub accrued : get_or (s.user_accrued_rewards u) (pos 0) ≡ pos a.accrued
  pub since : get_or (s.user_last_reward_timestamp u) 0 ≡ a.since
  pub accrued_fits : a.accrued < i128_bound

pub record Represents (s : Storage) (c : Config) (l : Ledger) : Type 0 where
  pub config : IsConfigured s c
  pub total : get_or s.total_deposits (pos 0) ≡ pos l.total
  pub index : get_or s.reward_index (pos 0) ≡ pos l.index
  pub total_fits : l.total < i128_bound
  pub index_fits : l.index < i128_bound
  pub accounts : (u : Address) → IsAccount s u (l.accounts u)

-- The arithmetic of settling an account stays in range.
abbrev pub can_settle : ℕ → Account → Bool
can_settle index a =
    ltb (staked a * (index - a.index)) i128_bound && ltb (a.accrued + earned index a) i128_bound
