-- ===== src/Vault/Refinement/Withdraw.antt =====
-- `store_withdraw` on a storage that stands for a ledger.
use axionvera_network.Base.{
  ℕ, ◌-◌, ◌≤◌, ◌≡◌, true, Bool-cases, inl, inr, leb→le, arith, leb, if◌then◌else◌, update,
}
use axionvera_network.Base.Int.{pos}
use axionvera_network.Base.I128.{checked_sub_pos}
use axionvera_network.Vault.Errors.{VaultError}
use axionvera_network.Vault.Outcome.{ok, err, IsOk}
use axionvera_network.Vault.State.{Address, Storage}
use axionvera_network.Vault.Storage.{set_liquid_balance, set_total_deposits, set_user_position}
use axionvera_network.Vault.Operations.{store_withdraw, withdraw_unlock_limit}
use axionvera_network.Vault.Ledger.{Account, Ledger, staked, restaked}
use axionvera_network.Vault.Ledger.Unlocking.{unlocked, staked-unlocked}
use axionvera_network.Vault.Refinement.{
  Config, position, vault_state, IsAccount, Represents, can_settle,
}
use axionvera_network.Vault.Refinement.Accrual.{get_state_lem, position_lem, liquid_lem, accrue_lem}
use axionvera_network.Vault.Refinement.Unlocking.{
  write_unlocked, unlock_expired_locks_lem, unlocked_ledger, write_unlocked-Represents,
}

-- The account once its first expired locks are free.
abbrev pub withdrawable : ℕ → Account → Account
withdrawable now a = unlocked now withdraw_unlock_limit a

-- The ledger after a withdrawal.
abbrev pub withdrawn : ℕ → Address → ℕ → Ledger → Ledger
withdrawn now u n l =
    let a : Account = l.accounts u in
    let b : Account = withdrawable now a in
    record l {
      total = l.total - n;
      accounts = update l.accounts u (restaked now l.index (b.liquid - n) b.locks a);
    }

abbrev write_withdraw : Ledger → Address → Account → Storage → Storage
write_withdraw l' u a s =
    set_user_position u (position a)
      (set_total_deposits (pos l'.total) (set_liquid_balance u (pos a.liquid) s))

module _ (s : Storage) (c : Config) (l : Ledger) (r : Represents s c l) where
  -- The storage once the expired locks are free.
  abbrev pub opened : ℕ → Address → Storage
  opened now u = write_unlocked now withdraw_unlock_limit u (l.accounts u) s

  pub opened_liquid :
      (now : ℕ) (u : Address) → IsAccount (opened now u) u (withdrawable now (l.accounts u))
  opened_liquid now u =
      ground (arith, (write_unlocked-Represents s c l r now withdraw_unlock_limit u).accounts u)

  -- On a storage that stands for a ledger, in which the user's stake is at most the total and
  -- its index at most the global one, `store_withdraw` is decided on every branch: where
  -- settling overflows it returns `MathOverflow` and writes nothing, where the liquid balance
  -- after unlocking is short it returns `InsufficientBalance` and has only unlocked, and else
  -- it returns and writes the ledger's withdrawal.
  pub withdraw_lem :
      (now : ℕ) (u : Address) (n : ℕ)
      → staked (l.accounts u) ≤ l.total
      → (l.accounts u).index ≤ l.index
      → let l' : Ledger = withdrawn now u n l in
        let a' : Account = l'.accounts u in
        store_withdraw now u (pos n) s ≡ (
          if can_settle l.index (l.accounts u)
          then (if leb n (withdrawable now (l.accounts u)).liquid
              then (ok (vault_state c l', position a'), write_withdraw l' u a' (opened now u))
              else (err VaultError.insufficient_balance, opened now u))
          else (err VaultError.math_overflow, s))
  unfolding store_withdraw
  withdraw_lem now u n h k =
      let a : Account = l.accounts u in
      let b : Account = withdrawable now a in
      ground (
        arith,
        get_state_lem s c l r,
        position_lem s u a (r.accounts u) (omega (arith, r.total_fits)),
        accrue_lem now c l a k r.index_fits (r.accounts u).accrued_fits,
        unlock_expired_locks_lem s u a (r.accounts u) (omega (arith, r.total_fits)) now
            withdraw_unlock_limit,
        liquid_lem (opened now u) u b (opened_liquid now u),
        staked-unlocked now withdraw_unlock_limit a,
        checked_sub_pos (staked a) n,
        checked_sub_pos b.liquid n,
        checked_sub_pos l.total n,
      )

  -- What a withdrawal writes stands for the ledger after it.
  pub write_withdraw-Represents :
      (now : ℕ) (u : Address) (n : ℕ)
      → can_settle l.index (l.accounts u) ≡ true
      → let l' : Ledger = withdrawn now u n l in
        Represents (write_withdraw l' u (l'.accounts u) (opened now u)) c l'
  unfolding set_user_position set_total_deposits set_liquid_balance
  write_withdraw-Represents now u n fits =
      let o : Represents (opened now u) c (unlocked_ledger now withdraw_unlock_limit u l) =
        write_unlocked-Represents s c l r now withdraw_unlock_limit u in
      record {
        config = ground (arith, o.config);
        total = ground arith;
        index = ground (arith, o.index);
        total_fits = omega (arith, r.total_fits);
        index_fits = r.index_fits;
        accounts = λ v. ground (arith, o.accounts u, o.accounts v);
      }

  -- A withdrawal that succeeds is covered by the liquid balance, and makes the ledger's withdrawal.
  pub store_withdraw-Represents :
      (now : ℕ) (u : Address) (n : ℕ)
      → staked (l.accounts u) ≤ l.total
      → (l.accounts u).index ≤ l.index
      → IsOk (store_withdraw now u (pos n) s).0
      → (n ≤ (withdrawable now (l.accounts u)).liquid)
        × Represents (store_withdraw now u (pos n) s).1 c (withdrawn now u n l)
  store_withdraw-Represents now u n h k success =
      elim (Bool-cases (can_settle l.index (l.accounts u))) [
        | inl e ↦ elim (Bool-cases (leb n (withdrawable now (l.accounts u)).liquid)) [
          | inl e' ↦ (
            leb→le _ _ e',
            rw (withdraw_lem now u n h k, e, e') (write_withdraw-Represents now u n e),
          )
          | inr e' ↦ absurd (rw (withdraw_lem now u n h k, e, e') at success)
        ]
        | inr e ↦ absurd (rw (withdraw_lem now u n h k, e) at success)
      ]
