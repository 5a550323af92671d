-- ===== src/Vault/History/Kept.antt =====
-- Each entry point keeps the storage solvent and the tokens above it.
use axionvera_network.Base.{
  ℕ, ◌*◌, ◌-◌, ◌/◌, ◌≤◌, ◌<◌, ◌≡◌, ◌≢◌, refl, ap, true, false, List, IsDistinct, IsListed,
}
use axionvera_network.Base.Int.{ℤ, pos_part}
use axionvera_network.Base.I128.{i128_bound}
use axionvera_network.Vault.Outcome.{ok}
use axionvera_network.Vault.State.{Address}
use axionvera_network.Vault.World.{Host, Call, World}
use axionvera_network.Vault.Contract
use axionvera_network.Vault.Ledger.{Ledger, settle, fund}
use axionvera_network.Vault.Ledger.Solvency.{IsSolvent, Step-IsSolvent}
use axionvera_network.Vault.Refinement.{Config, Represents}
use axionvera_network.Vault.Entries.Deposit.{deposit_refines}
use axionvera_network.Vault.Entries.Withdraw.{withdraw_refines}
use axionvera_network.Vault.Entries.Distribute.{distribute_refines}
use axionvera_network.Vault.Entries.Claim.{claim_refines}
use axionvera_network.Vault.History.Accounting.{
  staked-le-total, deposited-Step, withdrawn-Step, locked-Step, unlocked-Step, paid-Step,
  covered-le-total,
}
use axionvera_network.Vault.Refinement.Deposit.{deposited}
use axionvera_network.Vault.Refinement.Withdraw.{withdrawn}
use axionvera_network.Vault.Refinement.Distribute.{funded}
use axionvera_network.Vault.Refinement.Locking.{locked_ledger}
use axionvera_network.Vault.Refinement.Unlocking.{unlocked_ledger}
use axionvera_network.Vault.Refinement.Claim.{claimable}
use axionvera_network.Vault.Entries.Locking.{lock_refines, unlock_expired_refines}
use axionvera_network.Vault.History.Custodied.{
  deposited-IsCustodied, withdrawn-IsCustodied, funded-IsCustodied, paid-IsCustodied,
}
use axionvera_network.Vault.History.Custody.{
  IsToken, IsProper, IsCustodied, calculate_utilization_multiplier-le,
}

module _ (users : List Address) (distinct : IsDistinct users) (h : Host) (tok : IsToken h)
    (contract : Address) where
  -- The storage stands for a solvent ledger, and the vault holds what it owes.
  abbrev pub IsKept : World h.Tokens → Type 0
  IsKept w =
      (k : Config) × (l : Ledger) × Represents w.storage k l
      × IsSolvent users l
      × IsProper k
      × IsCustodied h contract w.tokens k l

  module _ (c : Call) (own : c.contract ≡ contract) (apart : c.authorized contract ≡ false)
      (w w' : World h.Tokens) where
    no_self : (u : Address) → c.authorized u ≡ true → u ≢ contract
    no_self u auth e = cc (ap c.authorized e)

    pub IsKept-deposit :
        (u : Address) (amount : ℤ)
        → IsListed u users
        → Contract.deposit h c u amount w ≡ (ok tt, w')
        → IsKept w
        → IsKept w'
    IsKept-deposit u amount m d (k, l, r, s, p, held) =
        let n : ℕ = pos_part amount in
        let (auth, number, moved, r') =
          deposit_refines h c w w' u amount k l r (staked-le-total users l s u m) (s.behind u) d in
        (
          k,
          deposited c.now u n l,
          r',
          Step-IsSolvent users distinct l _ (deposited-Step users l s u m c.now n) s,
          p,
          deposited-IsCustodied h tok contract w.tokens w'.tokens k p l held u (no_self u auth)
              c.now n (rw (← number, ← own) moved),
        )

    pub IsKept-withdraw :
        (u : Address) (amount : ℤ)
        → IsListed u users
        → Contract.withdraw h c u amount w ≡ (ok tt, w')
        → IsKept w
        → IsKept w'
    IsKept-withdraw u amount m d (k, l, r, s, p, held) =
        let n : ℕ = pos_part amount in
        let (auth, number, covered, moved, r') =
          withdraw_refines h c w w' u amount k l r (staked-le-total users l s u m) (s.behind u) d in
        (
          k,
          withdrawn c.now u n l,
          r',
          Step-IsSolvent users distinct l _ (withdrawn-Step users l s u m c.now n covered) s,
          p,
          withdrawn-IsCustodied h tok contract w.tokens w'.tokens k p l held u (no_self u auth)
              c.now n (covered-le-total users l s u m c.now n covered) (rw (← number, ← own) moved),
        )

    pub IsKept-lock :
        (u : Address) (amount : ℤ) (duration : ℕ)
        → IsListed u users
        → Contract.lock h c u amount duration w ≡ (ok tt, w')
        → IsKept w
        → IsKept w'
    IsKept-lock u amount duration m d (k, l, r, s, p, held) =
        let n : ℕ = pos_part amount in
        let (auth, number, covered, still, r') =
          lock_refines h c w w' u amount duration k l r (staked-le-total users l s u m) (s.behind u)
            d in
        (
          k,
          locked_ledger c.now u n duration l,
          r',
          Step-IsSolvent users distinct l _ (locked-Step users l s u m c.now n duration covered) s,
          p,
          record {
            deposits_held = rw still held.deposits_held;
            rewards_held = rw still held.rewards_held;
          },
        )

    pub IsKept-unlock_expired :
        (u : Address) (limit : ℕ) (amount : ℤ)
        → IsListed u users
        → Contract.unlock_expired h c u limit w ≡ (ok amount, w')
        → IsKept w
        → IsKept w'
    IsKept-unlock_expired u limit amount m d (k, l, r, s, p, held) =
        let (auth, small, freed, still, r') =
          unlock_expired_refines h c w w' u limit amount k l r (staked-le-total users l s u m) d in
        (
          k,
          unlocked_ledger c.now limit u l,
          r',
          Step-IsSolvent users distinct l _ (unlocked-Step users l s u m c.now limit) s,
          p,
          record {
            deposits_held = rw still held.deposits_held;
            rewards_held = rw still held.rewards_held;
          },
        )

    pub IsKept-distribute_rewards :
        (amount index : ℤ)
        → pos_part amount < i128_bound
        → Contract.distribute_rewards h c amount w ≡ (ok index, w')
        → IsKept w
        → IsKept w'
    IsKept-distribute_rewards amount index small d (k, l, r, s, p, held) =
        let n : ℕ = pos_part amount in
        let (multiplier, increment, auth, number, moved, curve, fair, r') =
          distribute_refines h c w w' amount index k l r small d in
        let modest : multiplier ≤ 10000 =
          calculate_utilization_multiplier-le _ _ k.utilization_multipliers multiplier p.modest
            curve in
        (
          k,
          funded (n * multiplier / 10000) increment l,
          r',
          Step-IsSolvent users distinct l _ (fund (n * multiplier / 10000) increment fair refl) s,
          p,
          funded-IsCustodied h tok contract w.tokens w'.tokens k p l held k.admin
              (no_self k.admin auth) n multiplier increment modest (rw (← number, ← own) moved),
        )

    pub IsKept-claim_rewards :
        (u : Address) (amount : ℤ)
        → IsListed u users
        → Contract.claim_rewards h c u w ≡ (ok amount, w')
        → IsKept w
        → IsKept w'
    IsKept-claim_rewards u amount m d (k, l, r, s, p, held) =
        let v : ℕ = claimable c.now k.vesting_period (settle c.now l.index (l.accounts u)) in
        let (auth, number, pays, r') =
          claim_refines h c w w' u amount k l (l.reserve - v) r (staked-le-total users l s u m)
            (s.behind u) d in
        (
          k,
          _,
          r',
          Step-IsSolvent users distinct l _ (paid-Step users l s u m c.now k.vesting_period) s,
          p,
          paid-IsCustodied h tok contract w.tokens w'.tokens k p l held u (no_self u auth) c v _ own
              refl refl (rw number at pays),
        )
