-- ===== src/Vault/Refinement/Unlocking.antt =====
-- `unlock_expired_locks` on a storage that stands for a ledger.
use mathlib.Core.List.{append-nil, append_assoc}
use axionvera_network.Base.{
  ℕ, zero, suc, ◌+◌, ◌<◌, ◌≡◌, refl, List, [], ◌∷◌, ◌++◌, map, arith, ltb, if◌then◌else◌, update,
}
use axionvera_network.Base.Int.{pos}
use axionvera_network.Base.I128.{i128_bound, checked_add_pos}
use axionvera_network.Vault.Outcome.{ok}
use axionvera_network.Vault.State.{Address, Lock, Storage}
use axionvera_network.Vault.Storage.{set_liquid_balance, set_user_locks, get_user_locks_unchecked}
use axionvera_network.Vault.Locks.{unlock_loop, unlock_locks, unlock_expired_locks, store_unlocked}
use axionvera_network.Vault.Ledger.{Account, TimeLock, Ledger, staked, locked}
use axionvera_network.Vault.Ledger.Unlocking.{freed, kept, freed-kept, unlocked}
use axionvera_network.Vault.Refinement.{Config, to_lock, IsAccount, Represents}
use axionvera_network.Vault.Refinement.Accrual.{liquid_lem}

-- With room left or not, the loop frees what the ledger frees.
unlock_loop_lem :
    (now limit processed room k : ℕ) (stay : List Lock) (ls : List TimeLock)
    → processed + room ≡ limit
    → k + locked ls < i128_bound
    → unlock_loop now limit (pos k) stay processed (map to_lock ls)
      ≡ ok (pos (k + freed now room ls), stay ++ map to_lock (kept now room ls))
unfolding unlock_loop
unlock_loop_lem now limit processed zero k stay [] e h = ground (arith, append-nil stay)
unlock_loop_lem now limit processed (suc room) k stay [] e h = ground (arith, append-nil stay)
unlock_loop_lem now limit processed zero k stay (l ∷ ls) e h = ground (
  arith,
  unlock_loop_lem now limit processed zero k (stay ++ to_lock l ∷ []) ls e,
  append_assoc stay (to_lock l ∷ []) (map to_lock ls),
)
unlock_loop_lem now limit processed (suc room) k stay (l ∷ ls) e h = ground (
  arith,
  checked_add_pos k l.amount,
  unlock_loop_lem now limit (processed + 1) room (k + l.amount) stay ls,
  unlock_loop_lem now limit processed (suc room) k (stay ++ to_lock l ∷ []) ls e,
  append_assoc stay (to_lock l ∷ []) (map to_lock (kept now (suc room) ls)),
)

-- The storage after unlocking.
abbrev pub write_unlocked : ℕ → ℕ → Address → Account → Storage → Storage
write_unlocked now room u a s =
    if ltb 0 (freed now room a.locks)
    then set_user_locks u (map to_lock (kept now room a.locks))
        (set_liquid_balance u (pos (a.liquid + freed now room a.locks)) s)
    else s

module _ (s : Storage) (u : Address) (a : Account) (r : IsAccount s u a)
    (h : staked a < i128_bound) where
  locks_lem : get_user_locks_unchecked s u ≡ map to_lock a.locks
  unfolding get_user_locks_unchecked
  locks_lem = r.locks

  unlock_locks_lem :
      (now room : ℕ)
      → unlock_locks now u room s
        ≡ (ok (pos (freed now room a.locks)), write_unlocked now room u a s)
  unfolding unlock_locks store_unlocked
  unlock_locks_lem now room = ground (
    arith,
    locks_lem,
    unlock_loop_lem now room 0 room 0 [] a.locks,
    liquid_lem s u a r,
    freed-kept now room a.locks,
    checked_add_pos a.liquid (freed now room a.locks),
  )

  freed-zero : (now : ℕ) → freed now zero a.locks ≡ 0
  freed-zero now = refl

  -- On a storage that stands for an account whose stake is an i128, `unlock_expired_locks`
  -- never fails: it returns the sum of the first expired locks within the limit, adds it to the
  -- liquid balance and keeps the other locks in their order, and it writes nothing where that
  -- sum is zero.
  pub unlock_expired_locks_lem :
      (now room : ℕ)
      → unlock_expired_locks now u room s
        ≡ (ok (pos (freed now room a.locks)), write_unlocked now room u a s)
  unfolding unlock_expired_locks
  unlock_expired_locks_lem now zero = ground (arith, freed-zero now)
  unlock_expired_locks_lem now (suc room) = ground (arith, unlock_locks_lem now (suc room))

-- The ledger after unlocking.
abbrev pub unlocked_ledger : ℕ → ℕ → Address → Ledger → Ledger
unlocked_ledger now room u l = record l {
  accounts = update l.accounts u (unlocked now room (l.accounts u));
}

module _ (s : Storage) (c : Config) (l : Ledger) (r : Represents s c l) where
  write_unlocked-IsAccount :
      (now room : ℕ) (u v : Address)
      → IsAccount
          (write_unlocked now room u (l.accounts u) s)
          v
          ((unlocked_ledger now room u l).accounts v)
  unfolding set_user_locks set_liquid_balance
  write_unlocked-IsAccount now room u v = ground (arith, r.accounts u, r.accounts v)

  -- What unlocking writes stands for the ledger after it.
  pub write_unlocked-Represents :
      (now room : ℕ) (u : Address)
      → Represents (write_unlocked now room u (l.accounts u) s) c (unlocked_ledger now room u l)
  unfolding set_user_locks set_liquid_balance
  write_unlocked-Represents now room u = record {
    config = ground (arith, r.config);
    total = ground (arith, r.total);
    index = ground (arith, r.index);
    total_fits = r.total_fits;
    index_fits = r.index_fits;
    accounts = write_unlocked-IsAccount now room u;
  }
