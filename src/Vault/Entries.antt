-- ===== src/Vault/Entries.antt =====
-- The entry points on a world whose storage stands for a ledger: what a successful call has
-- checked, and what it has done to the ledger and to the tokens.
pub mod Deposit
pub mod Withdraw
pub mod Locking
pub mod Distribute
pub mod Claim
pub mod Admin
pub mod Initialize
use axionvera_network.Base.{ℕ, ◌≡◌, Bool, true, false, some, arith}
use axionvera_network.Vault.State.{Storage}
use axionvera_network.Vault.Ledger.{Ledger}
use axionvera_network.Vault.Refinement.{Config, Represents}

-- The storage under the guard, and after it.
abbrev pub with_guard : Bool → Storage → Storage
with_guard b s = record s { reentrancy_guard = some b }

-- The guard is no part of the ledger.
pub with_guard-Represents :
    (b : Bool) (s : Storage) (c : Config) (l : Ledger)
    → Represents s c l
    → Represents (with_guard b s) c l
with_guard-Represents b s c l r = record {
  config = ground (arith, r.config);
  total = r.total;
  index = r.index;
  total_fits = r.total_fits;
  index_fits = r.index_fits;
  accounts = λ u. ground (arith, r.accounts u);
}

-- So it may be cleared at the end of a call.
pub leave-Represents :
    (s s' : Storage) (c : Config) (l : Ledger)
    → s' ≡ with_guard false s
    → Represents s c l
    → Represents s' c l
leave-Represents s s' c l e r = rw e (with_guard-Represents false s c l r)
