-- ===== src/Vault/Vesting.antt =====
-- Vesting over time, and claims that follow each other: `calculate_vested_rewards`,
-- `store_claimable_rewards` and the vested view of contracts/vault-contract/src/storage.rs.
use native.Mathlib.Nat.{mul-le-mul_left, mul-le-mul_right, le-div_iff_mul-le}
use axionvera_network.Base.{ℕ, zero, suc, ◌-◌, ◌*◌, ◌/◌, ◌≤◌, ◌<◌, ◌≡◌, ◌≢◌, true, arith, update}
use axionvera_network.Base.Int.{ℤ, pos, ◌≤ℤ◌}
use axionvera_network.Base.I128.{i128_bound, u128_bound}
use axionvera_network.Vault.Outcome.{ok, IsOk}
use axionvera_network.Vault.State.{Address, Storage, UserPosition}
use axionvera_network.Vault.Storage.{require_initialized}
use axionvera_network.Vault.Rewards.{calculate_vested_rewards}
use axionvera_network.Vault.Operations.{store_claimable_rewards}
use axionvera_network.Vault.Previews.{vested_user_rewards_view}
use axionvera_network.Vault.Ledger.{Ledger, staked, settle, paid}
use axionvera_network.Vault.Refinement.{Config, Represents, can_settle}
use axionvera_network.Vault.Refinement.Claim.{
  vested, vested-le, part-le, claimable, calculate_vested_rewards_lem, claim_lem,
  store_claimable_rewards-Represents,
}

-- On an initialized contract, where `store_claimable_rewards` returns an amount, the vested view
-- shows exactly that amount at that time.
pub view-eq-claim :
    (now : ℕ) (s : Storage) (u : Address) (v : ℤ)
    → require_initialized s ≡ ok tt
    → (store_claimable_rewards now u s).0 ≡ ok v
    → vested_user_rewards_view now s u ≡ ok v
unfolding vested_user_rewards_view store_claimable_rewards
view-eq-claim now s u v i e = ground arith

div_mono : (a b n : ℕ) → a ≤ b → a / n ≤ b / n
div_mono a b zero h = omega arith
div_mono a b (suc n) h = (le-div_iff_mul-le {x = a / suc n} {y = b} (omega arith)).1 (omega (arith))

vested_mono :
    (now now' period since accrued : ℕ)
    → now ≤ now'
    → vested now period since accrued ≤ vested now' period since accrued
vested_mono now now' period since accrued h = ground (
  arith,
  part-le accrued (now - since) period,
  div_mono (accrued * (now - since)) (accrued * (now' - since)) period
      (mul-le-mul_left accrued (omega arith)),
)

-- Where the accrued rewards are a number that is an i128, and the computation succeeds at two
-- times, the vested amount at the later time is at least that at the earlier one, and both are
-- between zero and the accrued rewards.
pub calculate_vested_rewards_mono :
    (now now' period : ℕ) (p : UserPosition) (accrued : ℕ) (a b : ℤ)
    → p.accrued_rewards ≡ pos accrued
    → accrued < i128_bound
    → now ≤ now'
    → calculate_vested_rewards now p period ≡ ok a
    → calculate_vested_rewards now' p period ≡ ok b
    → (pos 0 ≤ℤ a) × (a ≤ℤ b) × (b ≤ℤ pos accrued)
calculate_vested_rewards_mono now now' period p accrued a b e f h x y = ground (
  arith,
  calculate_vested_rewards_lem now period p accrued e f,
  calculate_vested_rewards_lem now' period p accrued e f,
  vested_mono now now' period p.last_reward_timestamp accrued h,
  vested-le now' period p.last_reward_timestamp accrued,
)

module _ (s : Storage) (k : Config) (l : Ledger) (r : Represents s k l) (now : ℕ) (u : Address)
    (b : staked (l.accounts u) ≤ l.total) (i : (l.accounts u).index ≡ l.index)
    (started : (l.accounts u).since ≢ 0)
    (fits : (l.accounts u).accrued * (now - (l.accounts u).since) < u128_bound)
    (partial : now - (l.accounts u).since < k.vesting_period) where
  -- The share that has vested of an amount.
  abbrev share : ℕ → ℕ
  share n = n * (now - (l.accounts u).since) / k.vesting_period

  settled_fits : can_settle l.index (l.accounts u) ≡ true
  settled_fits = ground (arith, (r.accounts u).accrued_fits)

  first_amount : (store_claimable_rewards now u s).0 ≡ ok (pos (share (l.accounts u).accrued))
  first_amount = ground (arith, claim_lem s k l r now u b (omega arith), settled_fits)

  -- The ledger after the first claim.
  abbrev claimed : Ledger
  claimed = record l {
    reserve = 0;
    accounts = update l.accounts u (
        paid now l.index (claimable now k.vesting_period (settle now l.index (l.accounts u)))
          (l.accounts u));
  }

  first_IsOk : IsOk (store_claimable_rewards now u s).0
  first_IsOk = rw first_amount tt

  claimed-Represents : Represents (store_claimable_rewards now u s).1 k claimed
  claimed-Represents =
      (store_claimable_rewards-Represents s k l r now u 0 b (omega arith) first_IsOk).1

  -- The account after the first claim: what has not vested stays, and vests from the same start.
  claimed_account :
      claimed.accounts u
      ≡ record (l.accounts u) { accrued = (l.accounts u).accrued - share (l.accounts u).accrued }
  claimed_account = ground arith

  second_amount :
      (store_claimable_rewards now u (store_claimable_rewards now u s).1).0
      ≡ ok (pos (share ((l.accounts u).accrued - share (l.accounts u).accrued)))
  second_amount = ground (
    arith,
    claim_lem (store_claimable_rewards now u s).1 k claimed claimed-Represents now u
        (rw claimed_account b) (rw claimed_account (omega arith)),
    claimed_account,
    settled_fits,
    mul-le-mul_right {m = (l.accounts u).accrued - share (l.accounts u).accrued}
        {n = (l.accounts u).accrued} (now - (l.accounts u).since) (omega arith),
  )

  -- On a storage that stands for a ledger, in which a user's account is settled at the global
  -- index, vesting has started and is not over, and the product under the division is in range,
  -- a claim pays the vested share of the rewards, and a second claim at the same time pays the
  -- same share again of what the first has left.
  pub claim_twice :
      let first : ℕ = share (l.accounts u).accrued in
      ((store_claimable_rewards now u s).0 ≡ ok (pos first))
      × ((store_claimable_rewards now u (store_claimable_rewards now u s).1).0
          ≡ ok (pos (share ((l.accounts u).accrued - first))))
  claim_twice = (first_amount, second_amount)
