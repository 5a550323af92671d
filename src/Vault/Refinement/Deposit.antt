-- ===== src/Vault/Refinement/Deposit.antt =====
-- `store_deposit` on a storage that stands for a ledger.
use axionvera_network.Base.{
  ℕ, ◌+◌, ◌≤◌, ◌≡◌, Bool, true, Bool-cases, inl, inr, ◌&&◌, arith, ltb, if◌then◌else◌, update,
}
use axionvera_network.Base.Int.{pos}
use axionvera_network.Base.I128.{i128_bound, checked_add_pos}
use axionvera_network.Vault.Errors.{VaultError}
use axionvera_network.Vault.Outcome.{ok, err, IsOk}
use axionvera_network.Vault.State.{Address, Storage}
use axionvera_network.Vault.Storage.{set_liquid_balance, set_total_deposits, set_user_position}
use axionvera_network.Vault.Operations.{store_deposit}
use axionvera_network.Vault.Ledger.{Account, Ledger, staked, restaked}
use axionvera_network.Vault.Refinement.{Config, position, vault_state, Represents, can_settle}
use axionvera_network.Vault.Refinement.Accrual.{get_state_lem, position_lem, liquid_lem, accrue_lem}

-- The ledger after a deposit.
abbrev pub deposited : ℕ → Address → ℕ → Ledger → Ledger
deposited now u n l =
    let a : Account = l.accounts u in
    record l {
      total = l.total + n;
      accounts = update l.accounts u (restaked now l.index (a.liquid + n) a.locks a);
    }

-- A deposit succeeds exactly when its arithmetic stays in range.
abbrev pub deposit_fits : Address → ℕ → Ledger → Bool
deposit_fits u n l = can_settle l.index (l.accounts u) && ltb (l.total + n) i128_bound

-- The storage after it.
abbrev write_deposit : Ledger → Address → Account → Storage → Storage
write_deposit l' u a s =
    set_user_position u (position a)
      (set_total_deposits (pos l'.total) (set_liquid_balance u (pos a.liquid) s))

module _ (s : Storage) (c : Config) (l : Ledger) (r : Represents s c l) where
  -- On a storage that stands for a ledger, in which the user's stake is at most the total and
  -- its index at most the global one, `store_deposit` of a number returns and writes the
  -- ledger's deposit where settling and the new total stay in range, and else returns
  -- `MathOverflow` and writes nothing.
  pub deposit_lem :
      (now : ℕ) (u : Address) (n : ℕ)
      → staked (l.accounts u) ≤ l.total
      → (l.accounts u).index ≤ l.index
      → let l' : Ledger = deposited now u n l in
        let a' : Account = l'.accounts u in
        store_deposit now u (pos n) s ≡ (
          if deposit_fits u n l
          then (ok (vault_state c l', position a'), write_deposit l' u a' s)
          else (err VaultError.math_overflow, s))
  unfolding store_deposit
  deposit_lem now u n h k =
      let a : Account = l.accounts u in
      ground (
        arith,
        get_state_lem s c l r,
        position_lem s u a (r.accounts u) (omega (arith, r.total_fits)),
        accrue_lem now c l a k r.index_fits (r.accounts u).accrued_fits,
        liquid_lem s u a (r.accounts u),
        checked_add_pos (staked a) n,
        checked_add_pos a.liquid n,
        checked_add_pos l.total n,
      )

  -- What a deposit writes stands for the ledger after it.
  pub write_deposit-Represents :
      (now : ℕ) (u : Address) (n : ℕ)
      → deposit_fits u n l ≡ true
      → let l' : Ledger = deposited now u n l in
        Represents (write_deposit l' u (l'.accounts u) s) c l'
  unfolding set_user_position set_total_deposits set_liquid_balance
  write_deposit-Represents now u n fits = record {
    config = ground (arith, r.config);
    total = ground arith;
    index = ground (arith, r.index);
    total_fits = ground arith;
    index_fits = r.index_fits;
    accounts = λ v. ground (arith, r.accounts u, r.accounts v);
  }

  -- A deposit that succeeds makes the ledger's deposit.
  pub store_deposit-Represents :
      (now : ℕ) (u : Address) (n : ℕ)
      → staked (l.accounts u) ≤ l.total
      → (l.accounts u).index ≤ l.index
      → IsOk (store_deposit now u (pos n) s).0
      → Represents (store_deposit now u (pos n) s).1 c (deposited now u n l)
  store_deposit-Represents now u n h k success = elim (Bool-cases (deposit_fits u n l)) [
    | inl e ↦ rw (deposit_lem now u n h k, e) (write_deposit-Represents now u n e)
    | inr e ↦ absurd (rw (deposit_lem now u n h k, e) at success)
  ]
