-- ===== src/Vault/Guards/Access.antt =====
-- Who may call what, in contracts/vault-contract/src/lib.rs.
use axionvera_network.Base.{ℕ, ◌≡◌, false, arith}
use axionvera_network.Base.Int.{ℤ}
use axionvera_network.Vault.Outcome.{ok}
use axionvera_network.Vault.State.{Address}
use axionvera_network.Vault.Storage.{get_admin}
use axionvera_network.Vault.World.{Host, Call, World}
use axionvera_network.Vault.Contract
use axionvera_network.Vault.AssetContract
use axionvera_network.Vault.Guards.Reentrancy.{Refused}

module _ (h : Host) (c : Call) (w : World h.Tokens) where
  -- A call that the user has not authorized neither succeeds nor changes anything, for each of
  -- the eight entry points that act on the user's funds and whatever the other arguments.
  pub unauthorized_user-Refused :
      (user : Address)
      → c.authorized user ≡ false
      → ((amount : ℤ) → Refused (Contract.deposit h c user amount) w)
        × ((amount : ℤ) → Refused (Contract.withdraw h c user amount) w)
        × ((amount : ℤ) (duration : ℕ) → Refused (Contract.lock h c user amount duration) w)
        × ((limit : ℕ) → Refused (Contract.unlock_expired h c user limit) w)
        × Refused (Contract.claim_rewards h c user) w
        × ((asset : Address) (amount : ℤ)
            → Refused (AssetContract.deposit_asset h c user asset amount) w)
        × ((asset : Address) (amount : ℤ)
            → Refused (AssetContract.withdraw_asset h c user asset amount) w)
        × ((asset : Address) → Refused (AssetContract.claim_rewards_for_asset h c user asset) w)
  unfolding Contract.deposit Contract.withdraw Contract.lock Contract.unlock_expired
      Contract.claim_rewards AssetContract.deposit_asset AssetContract.withdraw_asset
      AssetContract.claim_rewards_for_asset
  unauthorized_user-Refused user e = (
    λ amount. ground arith,
    λ amount. ground arith,
    λ amount duration. ground arith,
    λ limit. ground arith,
    ground arith,
    λ asset amount. ground arith,
    λ asset amount. ground arith,
    λ asset. ground arith,
  )

  -- A call that the stored admin has not authorized neither succeeds nor changes anything, for
  -- each of the seven entry points of the admin and whatever the other arguments, a named
  -- caller included.
  pub unauthorized_admin-Refused :
      (admin : Address)
      → get_admin w.storage ≡ ok admin
      → c.authorized admin ≡ false
      → ((new_admin : Address) → Refused (Contract.propose_new_admin h c new_admin) w)
        × ((amount : ℤ) → Refused (Contract.distribute_rewards h c amount) w)
        × Refused (Contract.pause_contract h c) w
        × Refused (Contract.unpause_contract h c) w
        × ((hash : ℕ) → Refused (Contract.upgrade h c hash) w)
        × ((caller asset : Address) → Refused (AssetContract.add_asset h c caller asset) w)
        × ((caller asset : Address) (amount : ℤ)
            → Refused (AssetContract.distribute_rewards_for_asset h c caller asset amount) w)
  unfolding Contract.propose_new_admin Contract.distribute_rewards Contract.pause_contract
      Contract.unpause_contract Contract.upgrade AssetContract.add_asset
      AssetContract.distribute_rewards_for_asset get_admin
  unauthorized_admin-Refused admin a e = (
    λ new_admin. ground arith,
    λ amount. ground arith,
    ground arith,
    ground arith,
    λ hash. ground arith,
    λ caller asset. ground arith,
    λ caller asset amount. ground arith,
  )
