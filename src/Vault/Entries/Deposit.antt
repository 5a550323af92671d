-- ===== src/Vault/Entries/Deposit.antt =====
-- `deposit`, as a whole.
use axionvera_network.Base.{◌≤◌, ◌≡◌, true, false, some, arith}
use axionvera_network.Base.Int.{ℤ, pos, pos_part, ◌<ℤ◌, pos-pos_part}
use axionvera_network.Vault.Outcome.{ok, IsOk}
use axionvera_network.Vault.State.{Address}
use axionvera_network.Vault.Storage.{get_state, enter_non_reentrant, exit_non_reentrant}
use axionvera_network.Vault.Operations.{store_deposit}
use axionvera_network.Vault.World.{Host, Call, World}
use axionvera_network.Vault.Validation.{with_non_reentrant, validate_positive_amount}
use axionvera_network.Vault.Contract.{deposit}
use axionvera_network.Vault.Ledger.{Ledger, staked}
use axionvera_network.Vault.Refinement.{Config, vault_state, Represents}
use axionvera_network.Vault.Refinement.Accrual.{get_state_lem}
use axionvera_network.Vault.Refinement.Deposit.{deposited, store_deposit-Represents}
use axionvera_network.Vault.Entries.{with_guard, with_guard-Represents, leave-Represents}

module _ (h : Host) (c : Call) (w w' : World h.Tokens) (from : Address) (amount : ℤ) where
  -- The guard and the arguments were checked, and the storage is that of `store_deposit`.
  deposit_runs :
      (k : Config) (l : Ledger)
      → get_state (with_guard true w.storage) ≡ ok (vault_state k l)
      → deposit h c from amount w ≡ (ok tt, w')
      → (pos 0 <ℤ amount)
        × (c.authorized from ≡ true)
        × (h.transfer k.deposit_token from c.contract amount w.tokens ≡ some w'.tokens)
        × IsOk (store_deposit c.now from amount (with_guard true w.storage)).0
        × (w'.storage
            ≡ with_guard false (store_deposit c.now from amount (with_guard true w.storage)).1)
  unfolding deposit with_non_reentrant enter_non_reentrant exit_non_reentrant
      validate_positive_amount
  deposit_runs k l e d = ground arith

  -- On a storage that stands for a ledger, in which the user's stake is at most the total and
  -- its index at most the global one, a deposit that succeeds is authorized by the user, is of
  -- a number that is not negative, transfers it from the user to the vault, and leaves a
  -- storage that stands for the ledger with the deposit added and the rewards settled.
  pub deposit_refines :
      (k : Config) (l : Ledger)
      → Represents w.storage k l
      → staked (l.accounts from) ≤ l.total
      → (l.accounts from).index ≤ l.index
      → deposit h c from amount w ≡ (ok tt, w')
      → (c.authorized from ≡ true)
        × (amount ≡ pos (pos_part amount))
        × (h.transfer k.deposit_token from c.contract amount w.tokens ≡ some w'.tokens)
        × Represents w'.storage k (deposited c.now from (pos_part amount) l)
  deposit_refines k l r b i d =
      let g : Represents (with_guard true w.storage) k l =
        with_guard-Represents true w.storage k l r in
      let (positive, auth, moved, success, stored) = deposit_runs k l (get_state_lem _ k l g) d in
      let number : amount ≡ pos (pos_part amount) = pos-pos_part amount (omega arith) in
      (
        auth,
        number,
        moved,
        leave-Represents (store_deposit c.now from amount (with_guard true w.storage)).1 _ k _
            stored
            (rw number (
              store_deposit-Represents _ k l g c.now from (pos_part amount) b i
                (rw number at success))),
      )
