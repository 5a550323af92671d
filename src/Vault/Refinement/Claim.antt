-- ===== src/Vault/Refinement/Claim.antt =====
-- Vesting, and `store_claimable_rewards`, on a storage that stands for a ledger.
use axionvera_network.Base.{
  ℕ, ◌-◌, ◌*◌, ◌/◌, ◌≤◌, ◌<◌, ◌≡◌, refl, ◌∙◌, Bool, true, Bool-cases, inl, inr, ◌&&◌, ◌||◌, arith,
  ltb, leb, ◌==◌, if◌then◌else◌, update,
}
use axionvera_network.Base.Int.{pos}
use axionvera_network.Base.I128.{
  i128_bound, u128_bound, checked_sub_pos, checked_mul_u128, checked_div_u128, checked_sub_u64,
}
use axionvera_network.Vault.Errors.{VaultError}
use axionvera_network.Vault.Outcome.{ok, err, IsOk}
use axionvera_network.Vault.State.{Address, VaultState, UserPosition, Storage}
use axionvera_network.Vault.Rewards.{calculate_vested_rewards, accrue_position_rewards}
use axionvera_network.Vault.Storage.{set_user_position, get_state, get_user_position_unchecked}
use axionvera_network.Vault.Operations.{store_claimable_rewards}
use axionvera_network.Vault.Ledger.{Account, Ledger, staked, settle, paid}
use axionvera_network.Vault.Refinement.{Config, position, vault_state, Represents, can_settle}
use axionvera_network.Vault.Refinement.Accrual.{get_state_lem, position_lem, accrue_lem}

-- The part of `accrued` that has vested: linear from `since` over the period, all of it after that.
-- Nothing vests before rewards have ever been credited.
abbrev pub vested : ℕ → ℕ → ℕ → ℕ → ℕ
vested now period since accrued =
    if period == 0
    then accrued
    else if since == 0
    then 0
    else if leb period (now - since)
    then accrued
    else accrued * (now - since) / period

-- A fraction below one takes no more than the whole.
pub part-le : (accrued elapsed period : ℕ) → elapsed ≤ period → accrued * elapsed / period ≤ accrued
part-le accrued elapsed period h = grind arith

pub vested-le : (now period since accrued : ℕ) → vested now period since accrued ≤ accrued
vested-le now period since accrued = ground (arith, part-le accrued (now - since) period)

-- The product under the division stays in range, where it is formed.
abbrev pub vesting_fits : ℕ → ℕ → ℕ → ℕ → Bool
vesting_fits now period since accrued =
    period == 0
    || since == 0
    || leb period (now - since)
    || ltb (accrued * (now - since)) u128_bound

pub calculate_vested_rewards_lem :
    (now period : ℕ) (p : UserPosition) (accrued : ℕ)
    → p.accrued_rewards ≡ pos accrued
    → accrued < i128_bound
    → calculate_vested_rewards now p period ≡ (
        if vesting_fits now period p.last_reward_timestamp accrued
        then ok (pos (vested now period p.last_reward_timestamp accrued))
        else err VaultError.math_overflow)
unfolding calculate_vested_rewards checked_mul_u128 checked_div_u128 checked_sub_u64
calculate_vested_rewards_lem now period p accrued e h =
    ground (arith, vested-le now period p.last_reward_timestamp accrued)

-- A claim from what it reads: the settled position `p` with its accrued rewards.
store_claimable_rewards_reads :
    (s : Storage) (now : ℕ) (u : Address) (accrued v : ℕ) (state : VaultState) (q p : UserPosition)
    → get_state s ≡ ok state
    → get_user_position_unchecked s u ≡ ok q
    → accrue_position_rewards now state q ≡ ok p
    → p.accrued_rewards ≡ pos accrued
    → accrued < i128_bound
    → v ≤ accrued
    → calculate_vested_rewards now p state.vesting_period ≡ ok (pos v)
    → store_claimable_rewards now u s
      ≡ (ok (pos v), set_user_position u (record p { accrued_rewards = pos (accrued - v) }) s)
unfolding store_claimable_rewards
store_claimable_rewards_reads s now u accrued v state q p e1 e2 e3 e4 h le e5 =
    ground (arith, checked_sub_pos accrued v)

store_claimable_rewards_fails :
    (s : Storage) (now : ℕ) (u : Address) (state : VaultState) (q p : UserPosition)
    → get_state s ≡ ok state
    → get_user_position_unchecked s u ≡ ok q
    → accrue_position_rewards now state q ≡ ok p
    → calculate_vested_rewards now p state.vesting_period ≡ err VaultError.math_overflow
    → store_claimable_rewards now u s ≡ (err VaultError.math_overflow, s)
unfolding store_claimable_rewards
store_claimable_rewards_fails s now u state q p e1 e2 e3 e4 = ground arith

store_claimable_rewards_unsettled :
    (s : Storage) (now : ℕ) (u : Address) (state : VaultState) (q : UserPosition)
    → get_state s ≡ ok state
    → get_user_position_unchecked s u ≡ ok q
    → accrue_position_rewards now state q ≡ err VaultError.math_overflow
    → store_claimable_rewards now u s ≡ (err VaultError.math_overflow, s)
unfolding store_claimable_rewards
store_claimable_rewards_unsettled s now u state q e1 e2 e3 = ground arith

-- What a settled account can claim.
abbrev pub claimable : ℕ → ℕ → Account → ℕ
claimable now period a = vested now period a.since a.accrued

abbrev pub claim_fits : ℕ → Config → Ledger → Account → Bool
claim_fits now c l a =
    can_settle l.index a
    && vesting_fits now c.vesting_period (settle now l.index a).since (settle now l.index a).accrued

abbrev pub write_claim : ℕ → Config → Ledger → Address → Storage → Storage
write_claim now c l u s =
    let a : Account = l.accounts u in
    set_user_position u
      (position (paid now l.index (claimable now c.vesting_period (settle now l.index a)) a)) s

module _ (s : Storage) (c : Config) (l : Ledger) (r : Represents s c l) (now : ℕ)
    (u : Address) where
  claim_settled :
      staked (l.accounts u) ≤ l.total
      → (l.accounts u).index ≤ l.index
      → can_settle l.index (l.accounts u) ≡ true
      → let a : Account = settle now l.index (l.accounts u) in
        store_claimable_rewards now u s ≡ (
          if vesting_fits now c.vesting_period a.since a.accrued
          then (ok (pos (claimable now c.vesting_period a)), write_claim now c l u s)
          else (err VaultError.math_overflow, s))
  claim_settled h k fits =
      let a : Account = settle now l.index (l.accounts u) in
      let reads : get_user_position_unchecked s u ≡ ok (position (l.accounts u)) =
        position_lem s u (l.accounts u) (r.accounts u) (omega (arith, r.total_fits)) in
      let settles : accrue_position_rewards now (vault_state c l) (position (l.accounts u))
          ≡ ok (position a) =
        accrue_lem now c l (l.accounts u) k r.index_fits (r.accounts u).accrued_fits ∙ rw fits in
      let in_range : a.accrued < i128_bound = ground arith in
      let vests =
        calculate_vested_rewards_lem now c.vesting_period (position a) a.accrued refl in_range in
      elim (Bool-cases (vesting_fits now c.vesting_period a.since a.accrued)) [
        | inl e ↦ rw e (
            store_claimable_rewards_reads s now u a.accrued (claimable now c.vesting_period a) _ _
              (position a) (get_state_lem s c l r) reads settles refl in_range
              (vested-le now c.vesting_period a.since a.accrued) (vests ∙ rw e))
        | inr e ↦ rw e (
            store_claimable_rewards_fails s now u _ _ (position a) (get_state_lem s c l r) reads
              settles (vests ∙ rw e))
      ]

  -- On a storage that stands for a ledger, in which the user's stake is at most the total and
  -- its index at most the global one, `store_claimable_rewards` returns what has vested and
  -- writes the ledger's claim where its arithmetic stays in range, and else returns
  -- `MathOverflow` and writes nothing.
  pub claim_lem :
      staked (l.accounts u) ≤ l.total
      → (l.accounts u).index ≤ l.index
      → store_claimable_rewards now u s ≡ (
          if claim_fits now c l (l.accounts u)
          then (
            ok (pos (claimable now c.vesting_period (settle now l.index (l.accounts u)))),
            write_claim now c l u s,
          )
          else (err VaultError.math_overflow, s))
  claim_lem h k = elim (Bool-cases (can_settle l.index (l.accounts u))) [
    | inl fits ↦ rw fits (claim_settled h k fits)
    | inr stuck ↦ rw stuck (
        store_claimable_rewards_unsettled s now u _ _ (get_state_lem s c l r)
          (position_lem s u (l.accounts u) (r.accounts u) (omega (arith, r.total_fits)))
          (accrue_lem now c l (l.accounts u) k r.index_fits (r.accounts u).accrued_fits ∙ rw stuck))
  ]

  -- What a claim writes stands for the ledger that has paid it, whatever the reserve.
  pub write_claim-Represents :
      (reserve : ℕ)
      → can_settle l.index (l.accounts u) ≡ true
      → Represents (write_claim now c l u s) c (record l {
        reserve = reserve;
        accounts = update l.accounts u (
            paid now l.index
              (claimable now c.vesting_period (settle now l.index (l.accounts u)))
              (l.accounts u));
      })
  unfolding set_user_position
  write_claim-Represents reserve fits = record {
    config = ground (arith, r.config);
    total = ground (arith, r.total);
    index = ground (arith, r.index);
    total_fits = r.total_fits;
    index_fits = r.index_fits;
    accounts = λ v. ground (arith, r.accounts u, r.accounts v);
  }

  -- A claim that succeeds pays what has vested, and takes it from the accrued rewards.
  pub store_claimable_rewards-Represents :
      (reserve : ℕ)
      → staked (l.accounts u) ≤ l.total
      → (l.accounts u).index ≤ l.index
      → IsOk (store_claimable_rewards now u s).0
      → let v : ℕ = claimable now c.vesting_period (settle now l.index (l.accounts u)) in
        ((store_claimable_rewards now u s).0 ≡ ok (pos v))
        × Represents (store_claimable_rewards now u s).1 c (record l {
          reserve = reserve;
          accounts = update l.accounts u (paid now l.index v (l.accounts u));
        })
  store_claimable_rewards-Represents reserve h k success =
      elim (Bool-cases (claim_fits now c l (l.accounts u))) [
        | inl e ↦ (
          rw (claim_lem h k, e),
          rw (claim_lem h k, e) (write_claim-Represents reserve (ground arith)),
        )
        | inr e ↦ absurd (rw (claim_lem h k, e) at success)
      ]
