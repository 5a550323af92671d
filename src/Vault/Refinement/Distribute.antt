-- ===== src/Vault/Refinement/Distribute.antt =====
-- `store_reward_distribution` on a storage that stands for a ledger.
use axionvera_network.Base.{
  ℕ, ◌+◌, ◌*◌, ◌/◌, ◌≤◌, ◌<◌, ◌≡◌, refl, ◌∙◌, Bool-cases, inl, inr, ltb→lt, arith, ltb, ◌==◌,
  if◌then◌else◌,
}
use axionvera_network.Base.Int.{ℤ, pos}
use axionvera_network.Base.I128.{
  i128_bound, u128_bound, checked_add_pos, checked_mul_pos, checked_div_pos, checked_mul_u128,
  checked_div_u128,
}
use native.Mathlib.Nat.{div-mul-le_self}
use axionvera_network.Vault.Errors.{VaultError}
use axionvera_network.Vault.Outcome.{Outcome, ok, err, panic, IsOk, Outcome-cases}
use axionvera_network.Vault.State.{VaultState, Storage}
use axionvera_network.Vault.Rewards.{
  precision_factor, checked_reward_index_increment, calculate_utilization_multiplier,
}
use axionvera_network.Vault.Storage.{set_reward_index, get_state}
use axionvera_network.Vault.Operations.{effective_reward, store_reward_distribution}
use axionvera_network.Vault.Ledger.{Ledger}
use axionvera_network.Vault.Refinement.{Config, vault_state, Represents}
use axionvera_network.Vault.Refinement.Accrual.{get_state_lem}

-- The increment of the index for a reward over a total.
abbrev pub increment_of : ℕ → ℕ → Outcome ℕ
increment_of reward total =
    if total == 0
    then err VaultError.no_deposits
    else if ltb (reward * precision_factor) i128_bound
    then (if reward * precision_factor / total == 0
        then err VaultError.zero_reward_increment
        else ok (reward * precision_factor / total))
    else err VaultError.math_overflow

abbrev on_pos : Outcome ℕ → Outcome ℤ
on_pos (ok n) = ok (pos n)
on_pos (err e) = err e
on_pos panic = panic

-- The index rises by the scaled reward over the total, or the call is refused.
pub checked_reward_index_increment_lem :
    (reward total : ℕ)
    → checked_reward_index_increment (pos reward) (pos total) ≡ on_pos (increment_of reward total)
unfolding checked_reward_index_increment
checked_reward_index_increment_lem reward total = ground (
  arith,
  checked_mul_pos reward precision_factor,
  checked_div_pos (reward * precision_factor) total,
)

-- No increment promises more than the reward: rounding is down.
pub increment_of-le :
    (reward total : ℕ) {increment : ℕ}
    → increment_of reward total ≡ ok increment
    → increment * total ≤ reward * precision_factor
increment_of-le reward total e = ground (arith, div-mul-le_self (reward * precision_factor) total)

-- Scaling by basis points loses nothing to a cast.
pub effective_reward_lem :
    (n multiplier : ℕ)
    → n < i128_bound
    → effective_reward (pos n) multiplier ≡ (
        if ltb (n * multiplier) u128_bound
        then ok (pos (n * multiplier / 10000))
        else err VaultError.math_overflow)
unfolding effective_reward checked_mul_u128 checked_div_u128
effective_reward_lem n multiplier h = ground arith

abbrev pub fund_increment : ℕ → ℕ → Ledger → Outcome ℕ
fund_increment n multiplier l =
    if ltb (n * multiplier) u128_bound
    then increment_of (n * multiplier / 10000) l.total
    else err VaultError.math_overflow

pub fund_increment-le :
    (n multiplier : ℕ) (l : Ledger) {increment : ℕ}
    → fund_increment n multiplier l ≡ ok increment
    → increment * l.total ≤ n * multiplier / 10000 * precision_factor
fund_increment-le n multiplier l e = elim (Bool-cases (ltb (n * multiplier) u128_bound)) [
  | inl fits ↦ increment_of-le (n * multiplier / 10000) l.total (rw fits at e)
  | inr wide ↦ cc (rw wide at e)
]

-- The ledger after a distribution.
abbrev pub funded : ℕ → ℕ → Ledger → Ledger
funded reward increment l = record l { index = l.index + increment; reserve = l.reserve + reward }

-- What a distribution does, by its increment.
abbrev pub finish_fund : Config → Ledger → Storage → Outcome ℕ → Outcome VaultState × Storage
finish_fund c l s (ok increment) =
    if ltb (l.index + increment) i128_bound
    then (ok (vault_state c (funded 0 increment l)), set_reward_index (pos (l.index + increment)) s)
    else (err VaultError.math_overflow, s)
finish_fund c l s (err e) = (err e, s)
finish_fund c l s panic = (panic, s)

store_reward_distribution_reads :
    (c : Config) (l : Ledger) (s : Storage) (n reward multiplier : ℕ) (o : Outcome ℕ)
    → get_state s ≡ ok (vault_state c l)
    → calculate_utilization_multiplier (pos l.total) c.target_deposits c.utilization_multipliers
      ≡ ok multiplier
    → effective_reward (pos n) multiplier ≡ ok (pos reward)
    → checked_reward_index_increment (pos reward) (pos l.total) ≡ on_pos o
    → store_reward_distribution (pos n) s ≡ finish_fund c l s o
unfolding store_reward_distribution
store_reward_distribution_reads c l s n reward multiplier (ok i) e1 e2 e3 e4 =
    ground (arith, checked_add_pos l.index i)
store_reward_distribution_reads c l s n reward multiplier _ e1 e2 e3 e4 = ground arith

store_reward_distribution_fails :
    (c : Config) (l : Ledger) (s : Storage) (n multiplier : ℕ)
    → get_state s ≡ ok (vault_state c l)
    → calculate_utilization_multiplier (pos l.total) c.target_deposits c.utilization_multipliers
      ≡ ok multiplier
    → effective_reward (pos n) multiplier ≡ err VaultError.math_overflow
    → store_reward_distribution (pos n) s ≡ (err VaultError.math_overflow, s)
unfolding store_reward_distribution
store_reward_distribution_fails c l s n multiplier e1 e2 e3 = ground arith

module _ (s : Storage) (c : Config) (l : Ledger) (r : Represents s c l) where
  -- On a storage that stands for a ledger, for an i128 amount and a known multiplier,
  -- `store_reward_distribution` is decided on every branch: no deposits, an overflow, a zero
  -- increment or an index out of range give their errors and write nothing, and else the index
  -- rises by the increment of the scaled amount.
  pub distribute_lem :
      (n multiplier : ℕ)
      → n < i128_bound
      → calculate_utilization_multiplier (pos l.total) c.target_deposits c.utilization_multipliers
        ≡ ok multiplier
      → store_reward_distribution (pos n) s ≡ finish_fund c l s (fund_increment n multiplier l)
  distribute_lem n multiplier h e = elim (Bool-cases (ltb (n * multiplier) u128_bound)) [
    | inl fits ↦ rw fits (
        store_reward_distribution_reads c l s n (n * multiplier / 10000) multiplier _
          (get_state_lem s c l r) e (effective_reward_lem n multiplier h ∙ rw fits)
          (checked_reward_index_increment_lem (n * multiplier / 10000) l.total))
    | inr wide ↦ rw wide (
        store_reward_distribution_fails c l s n multiplier (get_state_lem s c l r) e
          (effective_reward_lem n multiplier h ∙ rw wide))
  ]

  pub write_fund-Represents :
      (reward increment : ℕ)
      → l.index + increment < i128_bound
      → Represents (set_reward_index (pos (l.index + increment)) s) c (funded reward increment l)
  unfolding set_reward_index
  write_fund-Represents reward increment h = record {
    config = ground (arith, r.config);
    total = ground (arith, r.total);
    index = refl;
    total_fits = r.total_fits;
    index_fits = h;
    accounts = λ v. ground (arith, r.accounts v);
  }

  multiplier-IsOk :
      (n : ℕ)
      → IsOk (store_reward_distribution (pos n) s).0
      → IsOk (
          calculate_utilization_multiplier
            (pos l.total)
            c.target_deposits
            c.utilization_multipliers)
  unfolding store_reward_distribution
  multiplier-IsOk n success = ground (arith, get_state_lem s c l r)

  finish_fund-Represents :
      (reward : ℕ) (o : Outcome ℕ)
      → IsOk (finish_fund c l s o).0
      → (increment : ℕ) × (o ≡ ok increment)
        × Represents (finish_fund c l s o).1 c (funded reward increment l)
  finish_fund-Represents reward (ok increment) success =
      elim (Bool-cases (ltb (l.index + increment) i128_bound)) [
        | inl e ↦ (increment, refl, rw e (write_fund-Represents reward increment (ltb→lt _ _ e)))
        | inr e ↦ absurd (rw e at success)
      ]
  finish_fund-Represents reward (err e) success = absurd success
  finish_fund-Represents reward panic success = absurd success

  -- A distribution that succeeds raises the index by no more than the scaled reward covers.
  pub store_reward_distribution-Represents :
      (n : ℕ)
      → n < i128_bound
      → IsOk (store_reward_distribution (pos n) s).0
      → (multiplier increment : ℕ) × (calculate_utilization_multiplier
            (pos l.total)
            c.target_deposits
            c.utilization_multipliers
          ≡ ok multiplier)
        × (increment * l.total ≤ n * multiplier / 10000 * precision_factor)
        × Represents
            (store_reward_distribution (pos n) s).1
            c
            (funded (n * multiplier / 10000) increment l)
  store_reward_distribution-Represents n h success =
      elim (Outcome-cases (
        calculate_utilization_multiplier (pos l.total) c.target_deposits
          c.utilization_multipliers)) [
            | inl (m, e) ↦
                let runs = distribute_lem n m h e in
                let finishes : IsOk (finish_fund c l s (fund_increment n m l)).0 =
                  rw runs at success in
                let (i, made, stands) =
                  finish_fund-Represents (n * m / 10000) (fund_increment n m l) finishes in
                (m, i, e, fund_increment-le n m l made, rw runs stands)
            | inr fails ↦ absurd (fails (multiplier-IsOk n success))
          ]
