-- ===== src/Vault/Refinement/Locking.antt =====
-- `store_lock` on a storage that stands for a ledger.
use mathlib.Core.List.{map-append}
use axionvera_network.Base.{
  ℕ, ◌+◌, ◌-◌, ◌≤◌, ◌<◌, ◌≡◌, true, leb→le, false, Bool-cases, inl, inr, ◌∙◌, List, [], ◌∷◌, ◌++◌,
  map, arith, ltb, leb, if◌then◌else◌, update,
}
use axionvera_network.Base.Int.{pos}
use axionvera_network.Base.I128.{i128_bound, u64_bound, checked_sub_pos, checked_add_u64}
use axionvera_network.Vault.Errors.{VaultError}
use axionvera_network.Vault.Outcome.{ok, err, IsOk}
use axionvera_network.Vault.State.{Address, Lock, VaultState, UserPosition, Storage}
use axionvera_network.Vault.Storage.{
  set_liquid_balance, set_user_position, set_user_locks, get_user_locks_unchecked,
  get_liquid_balance_unchecked, get_state, get_user_position_unchecked,
}
use axionvera_network.Vault.Locks.{store_lock}
use axionvera_network.Vault.Rewards.{accrue_position_rewards}
use axionvera_network.Vault.Ledger.{Account, TimeLock, Ledger, staked, locked, restaked, settle}
use axionvera_network.Vault.Refinement.{
  Config, position, to_lock, vault_state, Represents, can_settle,
}
use axionvera_network.Vault.Refinement.Accrual.{get_state_lem, position_lem, accrue_lem}

abbrev pub new_lock : ℕ → ℕ → TimeLock
new_lock n until = record { amount = n; unlock_timestamp = until }

-- The ledger after a lock.
abbrev pub locked_ledger : ℕ → Address → ℕ → ℕ → Ledger → Ledger
locked_ledger now u n duration l =
    let a : Account = l.accounts u in
    record l {
      accounts =
          update l.accounts u
            (restaked now l.index (a.liquid - n) (a.locks ++ new_lock n (now + duration) ∷ []) a);
    }

pub locked-append : (ls ms : List TimeLock) → locked (ls ++ ms) ≡ locked ls + locked ms
locked-append [] ms = omega arith
locked-append (l ∷ ls) ms = omega (arith, locked-append ls ms)

-- The storage once the position is settled, and once the liquid balance is lowered too.
abbrev write_settled : ℕ → Ledger → Address → Storage → Storage
write_settled now l u s = set_user_position u (position (settle now l.index (l.accounts u))) s

abbrev write_lowered : ℕ → ℕ → Ledger → Address → Storage → Storage
write_lowered now n l u s =
    set_liquid_balance u (pos ((l.accounts u).liquid - n)) (write_settled now l u s)

abbrev pub write_lock : ℕ → ℕ → ℕ → Ledger → Address → Storage → Storage
write_lock now n duration l u s =
    set_user_locks u (map to_lock ((l.accounts u).locks ++ new_lock n (now + duration) ∷ []))
      (write_lowered now n l u s)

-- A lock from what it reads: the settled position `p`, the liquid balance and the locks.
store_lock_reads :
    (s : Storage) (now : ℕ) (u : Address) (n liquid duration : ℕ) (state : VaultState)
    (q p : UserPosition) (locks : List Lock)
    → get_state s ≡ ok state
    → get_user_position_unchecked s u ≡ ok q
    → accrue_position_rewards now state q ≡ ok p
    → get_liquid_balance_unchecked (set_user_position u p s) u ≡ pos liquid
    → get_user_locks_unchecked (set_liquid_balance u (pos (liquid - n)) (set_user_position u p s)) u
      ≡ locks
    → liquid < i128_bound
    → store_lock now u (pos n) duration s ≡ (
        if leb n liquid
        then (if ltb (now + duration) u64_bound
            then (
              ok tt,
              set_user_locks u
                  (locks ++ to_lock (new_lock n (now + duration)) ∷ [])
                  (set_liquid_balance u (pos (liquid - n)) (set_user_position u p s)),
            )
            else (
              err VaultError.math_overflow,
              set_liquid_balance u (pos (liquid - n)) (set_user_position u p s),
            ))
        else (err VaultError.insufficient_balance, set_user_position u p s))
unfolding store_lock checked_add_u64
store_lock_reads s now u n liquid duration state q p locks e1 e2 e3 e4 e5 h =
    ground (arith, checked_sub_pos liquid n)

module _ (s : Storage) (c : Config) (l : Ledger) (r : Represents s c l) where
  -- The position is written before the liquid balance is read.
  settled_liquid :
      (now : ℕ) (u : Address)
      → get_liquid_balance_unchecked
          (set_user_position u (position (settle now l.index (l.accounts u))) s)
          u
        ≡ pos (l.accounts u).liquid
  unfolding get_liquid_balance_unchecked set_user_position
  settled_liquid now u = (r.accounts u).liquid

  settled_locks :
      (now n : ℕ) (u : Address)
      → get_user_locks_unchecked
          (set_liquid_balance u
            (pos n)
            (set_user_position u (position (settle now l.index (l.accounts u))) s))
          u
        ≡ map to_lock (l.accounts u).locks
  unfolding get_user_locks_unchecked set_liquid_balance set_user_position
  settled_locks now n u = (r.accounts u).locks

  module _ (now : ℕ) (u : Address) (n duration : ℕ) where
    -- The rest of a lock, once the position is settled.
    lock_settled :
        staked (l.accounts u) ≤ l.total
        → (l.accounts u).index ≤ l.index
        → can_settle l.index (l.accounts u) ≡ true
        → store_lock now u (pos n) duration s ≡ (
            if leb n (l.accounts u).liquid
            then (if ltb (now + duration) u64_bound
                then (ok tt, write_lock now n duration l u s)
                else (err VaultError.math_overflow, write_lowered now n l u s))
            else (err VaultError.insufficient_balance, write_settled now l u s))
    unfolding store_lock checked_add_u64
    lock_settled h k fits =
        let a : Account = l.accounts u in
        let settles : accrue_position_rewards now (vault_state c l) (position a)
            ≡ ok (position (settle now l.index a)) =
          accrue_lem now c l a k r.index_fits (r.accounts u).accrued_fits ∙ rw fits in
        rw (← map-append to_lock a.locks (new_lock n (now + duration) ∷ [])) at (
          store_lock_reads s now u n a.liquid duration _ _ _ _ (get_state_lem s c l r)
            (position_lem s u a (r.accounts u) (omega (arith, r.total_fits))) settles
            (settled_liquid now u) (settled_locks now (a.liquid - n) u)
            (omega (arith, r.total_fits)))

    lock_unsettled :
        staked (l.accounts u) ≤ l.total
        → (l.accounts u).index ≤ l.index
        → can_settle l.index (l.accounts u) ≡ false
        → store_lock now u (pos n) duration s ≡ (err VaultError.math_overflow, s)
    unfolding store_lock
    lock_unsettled h k stuck =
        let a : Account = l.accounts u in
        let fails : accrue_position_rewards now (vault_state c l) (position a)
            ≡ err VaultError.math_overflow =
          accrue_lem now c l a k r.index_fits (r.accounts u).accrued_fits ∙ rw stuck in
        ground (
          arith,
          get_state_lem s c l r,
          position_lem s u a (r.accounts u) (omega (arith, r.total_fits)),
          fails,
        )

    -- On a storage that stands for a ledger, in which the user's stake is at most the total
    -- and its index at most the global one, `store_lock` is decided on every branch:
    -- `MathOverflow` where settling or the unlock time leaves its range,
    -- `InsufficientBalance` where the amount exceeds the liquid balance, with what each has
    -- written by then, and else the ledger's lock.
    pub lock_lem :
        staked (l.accounts u) ≤ l.total
        → (l.accounts u).index ≤ l.index
        → store_lock now u (pos n) duration s ≡ (
            if can_settle l.index (l.accounts u)
            then (if leb n (l.accounts u).liquid
                then (if ltb (now + duration) u64_bound
                    then (ok tt, write_lock now n duration l u s)
                    else (err VaultError.math_overflow, write_lowered now n l u s))
                else (err VaultError.insufficient_balance, write_settled now l u s))
            else (err VaultError.math_overflow, s))
    lock_lem h k = elim (Bool-cases (can_settle l.index (l.accounts u))) [
      | inl fits ↦ rw fits (lock_settled h k fits)
      | inr stuck ↦ rw stuck (lock_unsettled h k stuck)
    ]

  -- What a lock writes stands for the ledger after it.
  pub write_lock-Represents :
      (now : ℕ) (u : Address) (n duration : ℕ)
      → can_settle l.index (l.accounts u) ≡ true
      → Represents (write_lock now n duration l u s) c (locked_ledger now u n duration l)
  unfolding set_user_position set_user_locks set_liquid_balance
  write_lock-Represents now u n duration fits = record {
    config = ground (arith, r.config);
    total = ground (arith, r.total);
    index = ground (arith, r.index);
    total_fits = r.total_fits;
    index_fits = r.index_fits;
    accounts = λ v. ground (arith, r.accounts u, r.accounts v);
  }

  -- A lock that succeeds is covered by the liquid balance, and makes the ledger's lock.
  pub store_lock-Represents :
      (now : ℕ) (u : Address) (n duration : ℕ)
      → staked (l.accounts u) ≤ l.total
      → (l.accounts u).index ≤ l.index
      → IsOk (store_lock now u (pos n) duration s).0
      → (n ≤ (l.accounts u).liquid)
        × Represents (store_lock now u (pos n) duration s).1 c (locked_ledger now u n duration l)
  store_lock-Represents now u n duration h k success =
      elim (Bool-cases (can_settle l.index (l.accounts u))) [
        | inl e ↦ elim (Bool-cases (leb n (l.accounts u).liquid)) [
          | inl e' ↦ elim (Bool-cases (ltb (now + duration) u64_bound)) [
            | inl e'' ↦ (
              leb→le _ _ e',
              rw (lock_lem now u n duration h k, e, e', e'')
                  (write_lock-Represents now u n duration e),
            )
            | inr e'' ↦ absurd (rw (lock_lem now u n duration h k, e, e', e'') at success)
          ]
          | inr e' ↦ absurd (rw (lock_lem now u n duration h k, e, e') at success)
        ]
        | inr e ↦ absurd (rw (lock_lem now u n duration h k, e) at success)
      ]
