-- ===== src/Vault/History.antt =====
-- Any sequence of calls of the vault's entry points, each undone by the host where it fails.
pub mod ByAsset
pub mod Accounting
pub mod Sound
pub mod Custody
pub mod Custodied
pub mod Kept
pub mod Keeping
pub mod Unused
pub mod Promises
pub mod Backing
use axionvera_network.Base.{ℕ, ◌<◌, ◌≡◌, ◌≢◌, Bool, false, some, List, [], ◌∷◌, IsListed}
use axionvera_network.Base.Int.{ℤ, pos_part, ◌≤ℤ◌}
use axionvera_network.Base.I128.{i128_bound}
use axionvera_network.Vault.State.{Address, MultiplierPoint, Storage}
use axionvera_network.Vault.World.{Host, Call, World, invoke}
use axionvera_network.Vault.Contract
use axionvera_network.Vault.AssetContract

-- The entry points that change the vault, but for the upgrade, after which other code runs.
pub data Request : Type 0 where
  initialize : Address → Address → Address → ℕ → ℤ → List MultiplierPoint → Request
  propose_new_admin accept_admin claim_rewards : Address → Request
  deposit withdraw : Address → ℤ → Request
  distribute_rewards : ℤ → Request
  lock : Address → ℤ → ℕ → Request
  unlock_expired : Address → ℕ → Request
  pause_contract unpause_contract : Request
  add_asset claim_rewards_for_asset : Address → Address → Request
  deposit_asset withdraw_asset distribute_rewards_for_asset : Address → Address → ℤ → Request

-- The world after a call.
abbrev pub perform : (h : Host) → Call → Request → World h.Tokens → World h.Tokens
perform h c
      (Request.initialize admin deposit_token reward_token vesting_period target_deposits
        multipliers)
      w =
    (invoke
      (Contract.initialize h c admin deposit_token reward_token vesting_period target_deposits
        multipliers)
      w).1
perform h c (Request.propose_new_admin a) w = (invoke (Contract.propose_new_admin h c a) w).1
perform h c (Request.accept_admin a) w = (invoke (Contract.accept_admin h c a) w).1
perform h c (Request.claim_rewards u) w = (invoke (Contract.claim_rewards h c u) w).1
perform h c (Request.deposit u amount) w = (invoke (Contract.deposit h c u amount) w).1
perform h c (Request.withdraw u amount) w = (invoke (Contract.withdraw h c u amount) w).1
perform h c (Request.distribute_rewards amount) w =
    (invoke (Contract.distribute_rewards h c amount) w).1
perform h c (Request.lock u amount duration) w = (invoke (Contract.lock h c u amount duration) w).1
perform h c (Request.unlock_expired u limit) w = (invoke (Contract.unlock_expired h c u limit) w).1
perform h c Request.pause_contract w = (invoke (Contract.pause_contract h c) w).1
perform h c Request.unpause_contract w = (invoke (Contract.unpause_contract h c) w).1
perform h c (Request.add_asset admin asset) w =
    (invoke (AssetContract.add_asset h c admin asset) w).1
perform h c (Request.claim_rewards_for_asset u asset) w =
    (invoke (AssetContract.claim_rewards_for_asset h c u asset) w).1
perform h c (Request.deposit_asset u asset amount) w =
    (invoke (AssetContract.deposit_asset h c u asset amount) w).1
perform h c (Request.withdraw_asset u asset amount) w =
    (invoke (AssetContract.withdraw_asset h c u asset amount) w).1
perform h c (Request.distribute_rewards_for_asset admin asset amount) w =
    (invoke (AssetContract.distribute_rewards_for_asset h c admin asset amount) w).1

-- The user of a request to the main accounts is listed, and a distributed amount is an `i128`.
abbrev pub IsAdmissible : List Address → Request → Type 0
IsAdmissible users (Request.claim_rewards u) = IsListed u users
IsAdmissible users (Request.deposit u amount) = IsListed u users
IsAdmissible users (Request.withdraw u amount) = IsListed u users
IsAdmissible users (Request.lock u amount duration) = IsListed u users
IsAdmissible users (Request.unlock_expired u limit) = IsListed u users
IsAdmissible users (Request.distribute_rewards amount) = pos_part amount < i128_bound
IsAdmissible users _ = Unit

-- The request pays no rewards by asset, and withdraws no asset that is one of the vault's two
-- tokens.
abbrev pub IsApart : Storage → Request → Type 0
IsApart s (Request.claim_rewards_for_asset u asset) = ⊥
IsApart s (Request.withdraw_asset u asset amount) =
    (s.deposit_token ≢ some asset) × (s.reward_token ≢ some asset)
IsApart s _ = Unit

-- Which calls and which changes of the tokens elsewhere a history may have.
pub record Rules (h : Host) : Type 1 where
  pub Admits : Call → World h.Tokens → Request → Type 0
  pub Allows : h.Tokens → h.Tokens → Type 0

-- All admissible calls, and any changes of the tokens.
abbrev pub free_rules : (h : Host) → List Address → Rules h
free_rules h users = record { Admits = λ c w q. IsAdmissible users q; Allows = λ t t'. Unit }

-- Admissible calls of the vault at `contract` that it does not authorize itself and whose requests
-- are apart, and changes of the tokens that take nothing from the vault.
abbrev pub fair_rules : (h : Host) → Address → List Address → Rules h
fair_rules h contract users = record {
  Admits = λ c w q.
      (c.contract ≡ contract)
      × (c.authorized contract ≡ false)
      × IsAdmissible users q
      × IsApart w.storage q;
  Allows = λ t t'. (token : Address) → h.balance token contract t ≤ℤ h.balance token contract t';
}

-- What may happen to the world: a call of the vault, or a change of the tokens elsewhere.
pub data Move (h : Host) (rules : Rules h) (w w' : World h.Tokens) : Type 0 where
  call : (c : Call) (q : Request) → rules.Admits c w q → w' ≡ perform h c q w → Move h rules w w'
  outside :
      (tokens : h.Tokens)
      → rules.Allows w.tokens tokens
      → w' ≡ record w { tokens = tokens }
      → Move h rules w w'

pub data Moves (h : Host) (rules : Rules h) (w : World h.Tokens) : World h.Tokens → Type 0 where
  here : Moves h rules w w
  next : {v v' : World h.Tokens} → Moves h rules w v → Move h rules v v' → Moves h rules w v'
