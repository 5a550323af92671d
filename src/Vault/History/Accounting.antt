-- ===== src/Vault/History/Accounting.antt =====
-- The accounting of the vault over any history: its storage always stands for a solvent ledger.
use axionvera_network.Base.{
  ℕ, ◌+◌, ◌*◌, ◌-◌, ◌/◌, ◌≤◌, ◌<◌, ◌≡◌, refl, ap, List, arith, update, IsDistinct, IsListed,
}
use axionvera_network.Base.Int.{ℤ, pos_part}
use axionvera_network.Vault.Outcome.{ok}
use axionvera_network.Vault.State.{Address, Storage}
use axionvera_network.Vault.World.{Host, Call, World}
use axionvera_network.Vault.Contract
use axionvera_network.Vault.Ledger.{
  Account, Ledger, staked, settle, paid, Step, restake, release, fund, pay,
}
use axionvera_network.Vault.Ledger.Sums.{le-sum_over}
use axionvera_network.Vault.Ledger.Solvency.{IsSolvent, Step-IsSolvent}
use axionvera_network.Vault.Ledger.Unlocking.{unlocked, staked-unlocked, unlocked-released}
use axionvera_network.Vault.Refinement.{Config, Represents}
use axionvera_network.Vault.Refinement.Claim.{claimable, vested-le}
use axionvera_network.Vault.Refinement.Deposit.{deposited}
use axionvera_network.Vault.Refinement.Withdraw.{withdrawn, withdrawable}
use axionvera_network.Vault.Refinement.Locking.{locked_ledger, locked-append}
use axionvera_network.Vault.Refinement.Unlocking.{unlocked_ledger}
use axionvera_network.Vault.Entries.Deposit.{deposit_refines}
use axionvera_network.Vault.Entries.Withdraw.{withdraw_refines}
use axionvera_network.Vault.Entries.Locking.{lock_refines, unlock_expired_refines}
use axionvera_network.Vault.Entries.Distribute.{distribute_refines}
use axionvera_network.Vault.Entries.Claim.{claim_refines}
use axionvera_network.Base.I128.{i128_bound}

module _ (users : List Address) (l : Ledger) (s : IsSolvent users l) (u : Address)
    (m : IsListed u users) where
  pub staked-le-total : staked (l.accounts u) ≤ l.total
  staked-le-total = omega (arith, s.backed, le-sum_over staked l.accounts u users m)

  -- The moves of the ledger are steps.
  pub deposited-Step : (now n : ℕ) → Step users l (deposited now u n l)
  deposited-Step now n =
      restake u now ((l.accounts u).liquid + n) (l.total + n) (l.accounts u).locks m (omega arith)
        refl

  -- What is liquid is part of the total.
  pub covered-le-total : (now n : ℕ) → n ≤ (withdrawable now (l.accounts u)).liquid → n ≤ l.total
  covered-le-total now n h = omega (arith, staked-unlocked now 5 (l.accounts u), staked-le-total)

  pub withdrawn-Step :
      (now n : ℕ)
      → n ≤ (withdrawable now (l.accounts u)).liquid
      → Step users l (withdrawn now u n l)
  withdrawn-Step now n h =
      restake u now ((withdrawable now (l.accounts u)).liquid - n) (l.total - n)
        (withdrawable now (l.accounts u)).locks m
        (omega (arith, staked-unlocked now 5 (l.accounts u), staked-le-total)) refl

  pub locked-Step :
      (now n duration : ℕ)
      → n ≤ (l.accounts u).liquid
      → Step users l (locked_ledger now u n duration l)
  locked-Step now n duration h =
      restake u now ((l.accounts u).liquid - n) l.total _ m
        (omega (arith, locked-append (l.accounts u).locks)) refl

  pub unlocked-Step : (now limit : ℕ) → Step users l (unlocked_ledger now limit u l)
  unlocked-Step now limit =
      release u (unlocked now limit (l.accounts u)).liquid (unlocked now limit (l.accounts u)).locks
        m (staked-unlocked now limit (l.accounts u))
        (ap (λ (a : Account). record l { accounts = update l.accounts u a })
          (unlocked-released now limit (l.accounts u)))

  pub paid-Step :
      (now period : ℕ)
      → let v : ℕ = claimable now period (settle now l.index (l.accounts u)) in
        Step users l (record l {
          reserve = l.reserve - v;
          accounts = update l.accounts u (paid now l.index v (l.accounts u));
        })
  paid-Step now period = pay u now _ m (vested-le now period _ _) refl

-- The storage stands for a solvent ledger.
abbrev pub IsSound : List Address → Storage → Type 0
IsSound users s = (k : Config) × (l : Ledger) × Represents s k l × IsSolvent users l

module _ (users : List Address) (distinct : IsDistinct users) (h : Host) (c : Call)
    (w : World h.Tokens) where
  pub IsSound-deposit :
      (w' : World h.Tokens) (u : Address) (amount : ℤ)
      → IsListed u users
      → Contract.deposit h c u amount w ≡ (ok tt, w')
      → IsSound users w.storage
      → IsSound users w'.storage
  IsSound-deposit w' u amount m d (k, l, r, s) =
      let (_, _, _, r') =
        deposit_refines h c w w' u amount k l r (staked-le-total users l s u m) (s.behind u) d in
      (
        k,
        _,
        r',
        Step-IsSolvent users distinct l _ (deposited-Step users l s u m c.now (pos_part amount)) s,
      )

  pub IsSound-withdraw :
      (w' : World h.Tokens) (u : Address) (amount : ℤ)
      → IsListed u users
      → Contract.withdraw h c u amount w ≡ (ok tt, w')
      → IsSound users w.storage
      → IsSound users w'.storage
  IsSound-withdraw w' u amount m d (k, l, r, s) =
      let (_, _, covered, _, r') =
        withdraw_refines h c w w' u amount k l r (staked-le-total users l s u m) (s.behind u) d in
      (
        k,
        _,
        r',
        Step-IsSolvent users distinct l _
            (withdrawn-Step users l s u m c.now (pos_part amount) covered) s,
      )

  pub IsSound-lock :
      (w' : World h.Tokens) (u : Address) (amount : ℤ) (duration : ℕ)
      → IsListed u users
      → Contract.lock h c u amount duration w ≡ (ok tt, w')
      → IsSound users w.storage
      → IsSound users w'.storage
  IsSound-lock w' u amount duration m d (k, l, r, s) =
      let (_, _, covered, _, r') =
        lock_refines h c w w' u amount duration k l r (staked-le-total users l s u m) (s.behind u)
          d in
      (
        k,
        _,
        r',
        Step-IsSolvent users distinct l _
            (locked-Step users l s u m c.now (pos_part amount) duration covered) s,
      )

  pub IsSound-unlock_expired :
      (w' : World h.Tokens) (u : Address) (limit : ℕ) (amount : ℤ)
      → IsListed u users
      → Contract.unlock_expired h c u limit w ≡ (ok amount, w')
      → IsSound users w.storage
      → IsSound users w'.storage
  IsSound-unlock_expired w' u limit amount m d (k, l, r, s) =
      let (_, _, _, _, r') =
        unlock_expired_refines h c w w' u limit amount k l r (staked-le-total users l s u m) d in
      (k, _, r', Step-IsSolvent users distinct l _ (unlocked-Step users l s u m c.now limit) s)

  pub IsSound-claim_rewards :
      (w' : World h.Tokens) (u : Address) (amount : ℤ)
      → IsListed u users
      → Contract.claim_rewards h c u w ≡ (ok amount, w')
      → IsSound users w.storage
      → IsSound users w'.storage
  IsSound-claim_rewards w' u amount m d (k, l, r, s) =
      let v : ℕ = claimable c.now k.vesting_period (settle c.now l.index (l.accounts u)) in
      let (_, _, _, r') =
        claim_refines h c w w' u amount k l (l.reserve - v) r (staked-le-total users l s u m)
          (s.behind u) d in
      (
        k,
        _,
        r',
        Step-IsSolvent users distinct l _ (paid-Step users l s u m c.now k.vesting_period) s,
      )

  pub IsSound-distribute_rewards :
      (w' : World h.Tokens) (amount index : ℤ)
      → pos_part amount < i128_bound
      → Contract.distribute_rewards h c amount w ≡ (ok index, w')
      → IsSound users w.storage
      → IsSound users w'.storage
  IsSound-distribute_rewards w' amount index small d (k, l, r, s) =
      let (multiplier, increment, _, _, _, _, fair, r') =
        distribute_refines h c w w' amount index k l r small d in
      (
        k,
        _,
        r',
        Step-IsSolvent users distinct l _
            (fund (pos_part amount * multiplier / 10000) increment fair refl) s,
      )
