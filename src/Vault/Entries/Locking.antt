-- ===== src/Vault/Entries/Locking.antt =====
-- `lock` and `unlock_expired`, as a whole.
use axionvera_network.Base.{ℕ, ◌<◌, ◌≤◌, ◌≡◌, true, false, arith}
use axionvera_network.Base.Int.{ℤ, pos, pos_part, ◌<ℤ◌, pos-pos_part}
use axionvera_network.Vault.Outcome.{ok, IsOk}
use axionvera_network.Vault.State.{Address, Storage}
use axionvera_network.Vault.Storage.{enter_non_reentrant, exit_non_reentrant}
use axionvera_network.Vault.World.{Host, Call, World}
use axionvera_network.Vault.Validation.{with_non_reentrant, validate_positive_amount}
use axionvera_network.Vault.Ledger.{Ledger, staked}
use axionvera_network.Vault.Refinement.{Config, Represents}
use axionvera_network.Vault.Entries.{with_guard, with_guard-Represents, leave-Represents}
use axionvera_network.Vault.Locks.{store_lock, unlock_expired_locks}
use axionvera_network.Vault.Contract.{lock, unlock_expired, max_unlock_limit}
use axionvera_network.Vault.Refinement.Locking.{locked_ledger, store_lock-Represents}
use axionvera_network.Vault.Ledger.Unlocking.{freed}
use axionvera_network.Vault.Refinement.Unlocking.{
  unlocked_ledger, unlock_expired_locks_lem, write_unlocked-Represents,
}

module _ (h : Host) (c : Call) (w w' : World h.Tokens) (user : Address) where
  lock_runs :
      (amount : ℤ) (duration : ℕ)
      → lock h c user amount duration w ≡ (ok tt, w')
      → (pos 0 <ℤ amount)
        × (0 < duration)
        × (c.authorized user ≡ true)
        × (w'.tokens ≡ w.tokens)
        × IsOk (store_lock c.now user amount duration (with_guard true w.storage)).0
        × (w'.storage
            ≡ with_guard false
                (store_lock c.now user amount duration (with_guard true w.storage)).1)
  unfolding lock with_non_reentrant enter_non_reentrant exit_non_reentrant validate_positive_amount
  lock_runs amount duration d = ground arith

  -- On a storage that stands for a ledger, in which the user's stake is at most the total and
  -- its index at most the global one, a lock that succeeds is authorized by the user, is of an
  -- amount within the liquid balance, moves no token, and leaves a storage that stands for the
  -- ledger with the amount moved to a new lock that ends after the duration.
  pub lock_refines :
      (amount : ℤ) (duration : ℕ) (k : Config) (l : Ledger)
      → Represents w.storage k l
      → staked (l.accounts user) ≤ l.total
      → (l.accounts user).index ≤ l.index
      → lock h c user amount duration w ≡ (ok tt, w')
      → (c.authorized user ≡ true)
        × (amount ≡ pos (pos_part amount))
        × (pos_part amount ≤ (l.accounts user).liquid)
        × (w'.tokens ≡ w.tokens)
        × Represents w'.storage k (locked_ledger c.now user (pos_part amount) duration l)
  lock_refines amount duration k l r b i d =
      let g : Represents (with_guard true w.storage) k l =
        with_guard-Represents true w.storage k l r in
      let (positive, long, auth, still, success, stored) = lock_runs amount duration d in
      let number : amount ≡ pos (pos_part amount) = pos-pos_part amount (omega arith) in
      let (covered, stands) =
        store_lock-Represents _ k l g c.now user (pos_part amount) duration b i
          (rw number at success) in
      (
        auth,
        number,
        covered,
        still,
        leave-Represents (store_lock c.now user amount duration (with_guard true w.storage)).1 _ k _
            stored (rw number stands),
      )

  unlock_expired_runs :
      (limit : ℕ) (freed : ℤ)
      → unlock_expired h c user limit w ≡ (ok freed, w')
      → (c.authorized user ≡ true)
        × (limit ≤ max_unlock_limit)
        × (w'.tokens ≡ w.tokens)
        × ((unlock_expired_locks c.now user limit (with_guard true w.storage)).0 ≡ ok freed)
        × (w'.storage
            ≡ with_guard false
                (unlock_expired_locks c.now user limit (with_guard true w.storage)).1)
  unfolding unlock_expired with_non_reentrant enter_non_reentrant exit_non_reentrant
  unlock_expired_runs limit freed d = ground arith

  -- On a storage that stands for a ledger, in which the user's stake is at most the total, a
  -- call of `unlock_expired` that succeeds is authorized by the user, has a limit of at most
  -- 50, returns the sum of the first expired locks within the limit, moves no token, and leaves
  -- a storage that stands for the ledger with these locks freed.
  pub unlock_expired_refines :
      (limit : ℕ) (amount : ℤ) (k : Config) (l : Ledger)
      → Represents w.storage k l
      → staked (l.accounts user) ≤ l.total
      → unlock_expired h c user limit w ≡ (ok amount, w')
      → (c.authorized user ≡ true)
        × (limit ≤ max_unlock_limit)
        × (amount ≡ pos (freed c.now limit (l.accounts user).locks))
        × (w'.tokens ≡ w.tokens)
        × Represents w'.storage k (unlocked_ledger c.now limit user l)
  unlock_expired_refines limit amount k l r b d =
      let s1 : Storage = with_guard true w.storage in
      let g : Represents s1 k l = with_guard-Represents true w.storage k l r in
      let (auth, small, still, result, stored) = unlock_expired_runs limit amount d in
      let runs =
        unlock_expired_locks_lem s1 user (l.accounts user) (g.accounts user)
          (omega (arith, r.total_fits)) c.now limit in
      (
        auth,
        small,
        cc (result, runs),
        still,
        leave-Represents (unlock_expired_locks c.now user limit s1).1 _ k _ stored
            (rw runs (write_unlocked-Represents s1 k l g c.now limit user)),
      )
