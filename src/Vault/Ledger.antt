-- ===== src/Vault/Ledger.antt =====
-- What the vault promises, without machine integers, storage keys or errors: accounts that hold
-- liquid and locked stakes, a reward index, and the reserve of rewards that are funded and unpaid.
pub mod Sums
pub mod Unlocking
pub mod Solvency
use axionvera_network.Base.{
  ℕ, ◌+◌, ◌-◌, ◌*◌, ◌/◌, ◌≤◌, ◌<◌, ◌≡◌, List, [], ◌∷◌, ltb, if◌then◌else◌, update, IsListed,
}
use axionvera_network.Vault.State.{Address}
use axionvera_network.Vault.Rewards.{precision_factor}

-- An amount and the time from which it is free.
pub record TimeLock : Type 0 where
  pub amount : ℕ
  pub unlock_timestamp : ℕ

pub record Account : Type 0 where
  pub liquid : ℕ
  pub locks : List TimeLock
  pub index : ℕ
  pub accrued : ℕ
  pub since : ℕ

pub record Ledger : Type 0 where
  pub total : ℕ
  pub index : ℕ
  pub reserve : ℕ
  pub accounts : Address → Account

abbrev pub locked : List TimeLock → ℕ
locked [] = 0
locked (l ∷ ls) = l.amount + locked ls

abbrev pub staked : Account → ℕ
staked a = a.liquid + locked a.locks

-- What an account has earned since it was last settled, rounded down.
abbrev pub earned : ℕ → Account → ℕ
earned index a = staked a * (index - a.index) / precision_factor

-- An account brought up to the index. New earnings start the vesting clock.
abbrev pub settle : ℕ → ℕ → Account → Account
settle now index a = record a {
  index = index;
  accrued = a.accrued + earned index a;
  since = if ltb 0 (earned index a) then now else a.since;
}

-- A settled account with a new division of its stake.
abbrev pub restaked : ℕ → ℕ → ℕ → List TimeLock → Account → Account
restaked now index liquid locks a = record (settle now index a) { liquid = liquid; locks = locks }

-- An account with another division of its stake, and no settlement.
abbrev pub released : ℕ → List TimeLock → Account → Account
released liquid locks a = record a { liquid = liquid; locks = locks }

-- A settled account that is paid.
abbrev pub paid : ℕ → ℕ → ℕ → Account → Account
paid now index amount a = record (settle now index a) {
  accrued = a.accrued + earned index a - amount;
}

-- One step of the vault, for an account of the list `users`.
pub data Step (users : List Address) (l l' : Ledger) : Type 0 where
  -- A stake is added to the liquid part or taken from it, or moves between the parts.
  restake :
      (u : Address) (now liquid total : ℕ) (locks : List TimeLock)
      → IsListed u users
      → total + staked (l.accounts u) ≡ l.total + (liquid + locked locks)
      → l' ≡ record l {
        total = total;
        accounts = update l.accounts u (restaked now l.index liquid locks (l.accounts u));
      }
      → Step users l l'
  -- Free locks join the liquid part, and nothing is settled.
  release :
      (u : Address) (liquid : ℕ) (locks : List TimeLock)
      → IsListed u users
      → liquid + locked locks ≡ staked (l.accounts u)
      → l' ≡ record l { accounts = update l.accounts u (released liquid locks (l.accounts u)) }
      → Step users l l'
  -- Rewards enter the reserve, and raise the index by no more than they cover.
  fund :
      (rewards increment : ℕ)
      → increment * l.total ≤ rewards * precision_factor
      → l' ≡ record l { index = l.index + increment; reserve = l.reserve + rewards }
      → Step users l l'
  -- Accrued rewards leave the reserve.
  pay :
      (u : Address) (now amount : ℕ)
      → IsListed u users
      → amount ≤ (l.accounts u).accrued + earned l.index (l.accounts u)
      → l' ≡ record l {
        reserve = l.reserve - amount;
        accounts = update l.accounts u (paid now l.index amount (l.accounts u));
      }
      → Step users l l'

pub data Reach (users : List Address) (l : Ledger) : Ledger → Type 0 where
  here : Reach users l l
  next : {m n : Ledger} → Reach users l m → Step users m n → Reach users l n
