-- ===== src/Vault/Events.antt =====
-- contracts/vault-contract/src/events.rs: what each operation publishes, with the ledger's
-- timestamp. `lock` and `unlock` publish structs that the
-- source uses and declares nowhere; they have the fields that it gives.
use Prim.Native.String.{String}
use axionvera_network.Base.{ℕ, List, [], ◌∷◌}
use axionvera_network.Base.Int.{ℤ}
use axionvera_network.Vault.State.{Address}

pub data Event : Type 0 where
  initialize : (admin deposit_token reward_token : Address) (timestamp : ℕ) → Event
  lock : (user : Address) (amount : ℤ) (unlock_timestamp timestamp : ℕ) → Event
  unlock : (user : Address) (amount : ℤ) (timestamp : ℕ) → Event
  deposit : (user : Address) (amount : ℤ) (timestamp : ℕ) → Event
  withdraw : (user : Address) (amount remaining_balance : ℤ) (timestamp : ℕ) → Event
  distribute : (caller : Address) (amount : ℤ) (timestamp : ℕ) → Event
  claim : (user : Address) (amount : ℤ) (timestamp : ℕ) → Event
  admin_transfer_proposed : (current_admin pending_admin : Address) (timestamp : ℕ) → Event
  admin_transfer_accepted : (previous_admin new_admin : Address) (timestamp : ℕ) → Event
  upgrade : (admin : Address) (new_wasm_hash timestamp : ℕ) → Event
  asset_added : (asset : Address) (timestamp : ℕ) → Event
  asset_deposit : (user asset : Address) (amount : ℤ) (timestamp : ℕ) → Event
  asset_withdraw : (user asset : Address) (amount remaining_balance : ℤ) (timestamp : ℕ) → Event
  asset_distribute : (caller asset : Address) (amount : ℤ) (timestamp : ℕ) → Event
  asset_claim : (user asset : Address) (amount : ℤ) (timestamp : ℕ) → Event

-- The topics under which each event is published.
unfoldable pub topics : Event → List String
topics (Event.initialize admin deposit_token reward_token timestamp) =
    "AxionVault" ∷ "Initialize" ∷ []
topics (Event.lock user amount unlock_timestamp timestamp) = "AxionVault" ∷ "Lock" ∷ []
topics (Event.unlock user amount timestamp) = "AxionVault" ∷ "Unlock" ∷ []
topics (Event.deposit user amount timestamp) = "AxionVault" ∷ "Deposit" ∷ []
topics (Event.withdraw user amount remaining_balance timestamp) = "AxionVault" ∷ "Withdraw" ∷ []
topics (Event.distribute caller amount timestamp) = "AxionVault" ∷ "Distribute" ∷ []
topics (Event.claim user amount timestamp) = "AxionVault" ∷ "Claim" ∷ []
topics (Event.admin_transfer_proposed current_admin pending_admin timestamp) = "AdminProp" ∷ []
topics (Event.admin_transfer_accepted previous_admin new_admin timestamp) = "AdminAcpt" ∷ []
topics (Event.upgrade admin new_wasm_hash timestamp) = "Upgrade" ∷ []
topics (Event.asset_added asset timestamp) = "AssetAdd" ∷ []
topics (Event.asset_deposit user asset amount timestamp) = "AxionVault" ∷ "AssetDep" ∷ []
topics (Event.asset_withdraw user asset amount remaining_balance timestamp) =
    "AxionVault" ∷ "AssetWith" ∷ []
topics (Event.asset_distribute caller asset amount timestamp) = "AxionVault" ∷ "AssetDist" ∷ []
topics (Event.asset_claim user asset amount timestamp) = "AxionVault" ∷ "AssetClm" ∷ []
