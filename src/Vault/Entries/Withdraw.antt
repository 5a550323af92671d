-- ===== src/Vault/Entries/Withdraw.antt =====
-- `withdraw`, as a whole.
use axionvera_network.Base.{◌≤◌, ◌≡◌, true, false, some, arith}
use axionvera_network.Base.Int.{ℤ, pos, pos_part, ◌<ℤ◌, pos-pos_part}
use axionvera_network.Vault.Outcome.{ok, IsOk}
use axionvera_network.Vault.State.{Address}
use axionvera_network.Vault.Storage.{get_state, enter_non_reentrant, exit_non_reentrant}
use axionvera_network.Vault.World.{Host, Call, World}
use axionvera_network.Vault.Validation.{with_non_reentrant, validate_positive_amount}
use axionvera_network.Vault.Ledger.{Ledger, staked}
use axionvera_network.Vault.Refinement.{Config, vault_state, Represents}
use axionvera_network.Vault.Refinement.Accrual.{get_state_lem}
use axionvera_network.Vault.Entries.{with_guard, with_guard-Represents, leave-Represents}
use axionvera_network.Vault.Operations.{store_withdraw}
use axionvera_network.Vault.Contract.{withdraw}
use axionvera_network.Vault.Refinement.Withdraw.{withdrawn, withdrawable, store_withdraw-Represents}

module _ (h : Host) (c : Call) (w w' : World h.Tokens) (to : Address) (amount : ℤ) where
  withdraw_runs :
      (k : Config) (l : Ledger)
      → get_state (with_guard true w.storage) ≡ ok (vault_state k l)
      → withdraw h c to amount w ≡ (ok tt, w')
      → (pos 0 <ℤ amount)
        × (c.authorized to ≡ true)
        × (h.transfer k.deposit_token c.contract to amount w.tokens ≡ some w'.tokens)
        × IsOk (store_withdraw c.now to amount (with_guard true w.storage)).0
        × (w'.storage
            ≡ with_guard false (store_withdraw c.now to amount (with_guard true w.storage)).1)
  unfolding withdraw with_non_reentrant enter_non_reentrant exit_non_reentrant
      validate_positive_amount
  withdraw_runs k l e d = ground arith

  -- On a storage that stands for a ledger, in which the user's stake is at most the total and
  -- its index at most the global one, a withdrawal that succeeds is authorized by the user, is
  -- covered by the liquid balance once five expired locks at most are free, transfers the
  -- amount from the vault to the user, and leaves a storage that stands for the ledger after
  -- the withdrawal.
  pub withdraw_refines :
      (k : Config) (l : Ledger)
      → Represents w.storage k l
      → staked (l.accounts to) ≤ l.total
      → (l.accounts to).index ≤ l.index
      → withdraw h c to amount w ≡ (ok tt, w')
      → (c.authorized to ≡ true)
        × (amount ≡ pos (pos_part amount))
        × (pos_part amount ≤ (withdrawable c.now (l.accounts to)).liquid)
        × (h.transfer k.deposit_token c.contract to amount w.tokens ≡ some w'.tokens)
        × Represents w'.storage k (withdrawn c.now to (pos_part amount) l)
  withdraw_refines k l r b i d =
      let g : Represents (with_guard true w.storage) k l =
        with_guard-Represents true w.storage k l r in
      let (positive, auth, moved, success, stored) = withdraw_runs k l (get_state_lem _ k l g) d in
      let number : amount ≡ pos (pos_part amount) = pos-pos_part amount (omega arith) in
      let (covered, stands) =
        store_withdraw-Represents _ k l g c.now to (pos_part amount) b i (rw number at success) in
      (
        auth,
        number,
        covered,
        moved,
        leave-Represents (store_withdraw c.now to amount (with_guard true w.storage)).1 _ k _ stored
            (rw number stands),
      )
