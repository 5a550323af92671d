-- ===== src/Vault/Upgraded.antt =====
-- contracts/vault-contract-v2/src/lib.rs: the contract that an upgrade installs over the storage of
-- the first version. A key of the storage is its name, so the keys that both versions name are one.
-- `v2_greeting`, a constant, and the two helpers on the time to live, which nothing calls, are left
-- out.
pub mod Carried
use axionvera_network.Base.{ℕ, Bool, Option, none, some, get_or, if◌then◌else◌}
use axionvera_network.Base.Int.{ℤ, pos}
use axionvera_network.Vault.Outcome.{Outcome, ok, panic}
use axionvera_network.Vault.Action.{Action}
use axionvera_network.Vault.State.{Address, Storage}
use axionvera_network.Vault.World.{Call}

-- The keys of the second version. The first declares all of them but `user_rewards`.
pub record Keys : Type 0 where
  pub initialized : Option Bool
  pub admin : Option Address
  pub deposit_token : Option Address
  pub reward_token : Option Address
  pub total_deposits : Option ℤ
  pub reward_index : Option ℤ
  pub user_balance : Address → Option ℤ
  pub user_reward_index : Address → Option ℤ
  pub user_rewards : Address → Option ℤ

-- What the second version finds under its keys where the first has left its storage, which has no
-- key named `UserRewards`.
abbrev pub carry_over : Storage → Keys
carry_over s = record {
  initialized = s.initialized;
  admin = s.admin;
  deposit_token = s.deposit_token;
  reward_token = s.reward_token;
  total_deposits = s.total_deposits;
  reward_index = s.reward_index;
  user_balance = s.user_balance;
  user_reward_index = s.user_reward_index;
  user_rewards = λ user. none;
}

-- The storage and the code's hash.
pub record UpgradedVault : Type 0 where
  pub keys : Keys
  pub wasm : ℕ

abbrev pub version : ℕ
version = 2

-- `unwrap` panics on a missing key.
unfoldable pub read_admin : Keys → Outcome Address
read_admin k = elim k.admin [ none ↦ panic | some admin ↦ ok admin ]

unfoldable pub read_balance : Address → Keys → ℤ
read_balance user k = get_or (k.user_balance user) (pos 0)

unfoldable pub read_total_deposits : Keys → ℤ
read_total_deposits k = get_or k.total_deposits (pos 0)

-- The address that must authorize the call is an argument of the call.
unfoldable pub upgrade_again : Call → Address → ℕ → Action UpgradedVault (Unit {0})
upgrade_again c admin new_wasm_hash v =
    if c.authorized admin then (ok tt, record v { wasm = new_wasm_hash }) else (panic, v)
