-- ===== src/Vault.antt =====
-- The vault contract, contracts/vault-contract/src: its errors, storage, reward arithmetic,
-- operations and entry points, and below them the theorems on each.
pub mod Errors
pub mod Outcome
pub mod Action
pub mod State
pub mod Ledger
pub mod Rewards
pub mod Storage
pub mod Locks
pub mod Operations
pub mod Assets
pub mod Previews
pub mod Events
pub mod World
pub mod Validation
pub mod Contract
pub mod AssetContract
pub mod Refinement
pub mod Entries
pub mod History
pub mod Guards
pub mod Multipliers
pub mod Vesting
pub mod Codes
pub mod AssetEffects
pub mod Upgraded
pub mod Tests
