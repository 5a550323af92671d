-- ===== src/Vault/Tests/EntryExamples.antt =====
-- The theorems on the entry points, at the runs of one vault.
use axionvera_network.Base.{ℕ, ◌*◌, ◌/◌, update, ◌≡◌, ◌≤◌, true, some, arith}
use axionvera_network.Base.Int.{pos}
use axionvera_network.Vault.Outcome.{ok}
use axionvera_network.Vault.Rewards.{precision_factor, calculate_utilization_multiplier}
use axionvera_network.Vault.Ledger.{paid}
use axionvera_network.Vault.Ledger.Unlocking.{freed}
use axionvera_network.Vault.Refinement.{Represents}
use axionvera_network.Vault.Refinement.Withdraw
use axionvera_network.Vault.Refinement.Unlocking.{unlocked_ledger}
use axionvera_network.Vault.Refinement.Distribute
use axionvera_network.Vault.Entries.Initialize.{empty_ledger}
use axionvera_network.Vault.Entries.Deposit.{deposit_refines}
use axionvera_network.Vault.Entries.Withdraw.{withdraw_refines}
use axionvera_network.Vault.Entries.Locking.{lock_refines, unlock_expired_refines}
use axionvera_network.Vault.Entries.Distribute.{distribute_refines}
use axionvera_network.Vault.Entries.Claim.{Pays, claim_refines}
use axionvera_network.Vault.Tests.{
  host, at, vault, owner, alice, deposit_token, reward_token, points, opened, deposited, locked,
  funded, settled, claimed, withdrawn, unlocked,
}
use axionvera_network.Vault.Tests.Ledgers.{
  settings, deposited_ledger, locked_ledger, settled_ledger, opened-Represents,
  deposited-Represents, locked-Represents, settled-Represents,
}
use axionvera_network.Vault.Tests.Runs.{
  deposited_runs, locked_runs, funded_runs, claimed_runs, withdrawn_runs, unlocked_runs,
}

deposit_refines_example :
    ((at 1010).authorized alice ≡ true)
    × (pos 1_000_000 ≡ pos 1_000_000)
    × (host.transfer deposit_token alice vault (pos 1_000_000) opened.tokens
        ≡ some deposited.tokens)
    × Represents deposited.storage settings deposited_ledger
deposit_refines_example =
    deposit_refines host (at 1010) opened deposited alice (pos 1_000_000) settings empty_ledger
      opened-Represents (omega arith) (omega arith) deposited_runs

withdraw_refines_example :
    ((at 1140).authorized alice ≡ true)
    × (pos 700_000 ≡ pos 700_000)
    × (700_000 ≤ (Withdraw.withdrawable 1140 (settled_ledger.accounts alice)).liquid)
    × (host.transfer deposit_token vault alice (pos 700_000) settled.tokens ≡ some withdrawn.tokens)
    × Represents withdrawn.storage settings (Withdraw.withdrawn 1140 alice 700_000 settled_ledger)
withdraw_refines_example =
    withdraw_refines host (at 1140) settled withdrawn alice (pos 700_000) settings settled_ledger
      settled-Represents (omega arith) (omega arith) withdrawn_runs

lock_refines_example :
    ((at 1020).authorized alice ≡ true)
    × (pos 400_000 ≡ pos 400_000)
    × (400_000 ≤ (deposited_ledger.accounts alice).liquid)
    × (locked.tokens ≡ deposited.tokens)
    × Represents locked.storage settings locked_ledger
lock_refines_example =
    lock_refines host (at 1020) deposited locked alice (pos 400_000) 60 settings deposited_ledger
      deposited-Represents (omega arith) (omega arith) locked_runs

unlock_expired_refines_example :
    ((at 1090).authorized alice ≡ true)
    × (10 ≤ 50)
    × (pos 400_000 ≡ pos (freed 1090 10 (locked_ledger.accounts alice).locks))
    × (unlocked.tokens ≡ locked.tokens)
    × Represents unlocked.storage settings (unlocked_ledger 1090 10 alice locked_ledger)
unlock_expired_refines_example =
    unlock_expired_refines host (at 1090) locked unlocked alice 10 (pos 400_000) settings
      locked_ledger locked-Represents (omega arith) unlocked_runs

distribute_refines_example :
    (multiplier increment : ℕ) × ((at 1030).authorized owner ≡ true)
    × (pos 200_000 ≡ pos 200_000)
    × (host.transfer reward_token owner vault (pos 200_000) locked.tokens ≡ some funded.tokens)
    × (calculate_utilization_multiplier (pos 1_000_000) (pos 2_000_000) points ≡ ok multiplier)
    × (increment * 1_000_000 ≤ 200_000 * multiplier / 10000 * precision_factor)
    × Represents funded.storage settings
        (Distribute.funded (200_000 * multiplier / 10000) increment locked_ledger)
distribute_refines_example =
    distribute_refines host (at 1030) locked funded (pos 200_000) (pos 160_000_000) settings
      locked_ledger locked-Represents (omega arith) funded_runs

claim_refines_example :
    ((at 1130).authorized alice ≡ true)
    × (pos 80_000 ≡ pos 80_000)
    × Pays host (at 1130) reward_token alice (pos 80_000) settled.tokens claimed.tokens
    × Represents claimed.storage settings (record settled_ledger {
      reserve = 80_000;
      accounts =
          update settled_ledger.accounts alice
            (paid 1130 160_000_000 80_000 (settled_ledger.accounts alice));
    })
claim_refines_example =
    claim_refines host (at 1130) settled claimed alice (pos 80_000) settings settled_ledger 80_000
      settled-Represents (omega arith) (omega arith) claimed_runs
