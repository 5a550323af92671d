-- ===== src/Vault/Refinement/Accrual.antt =====
-- Reading a position and settling it, on a storage that stands for a ledger.
use axionvera_network.Base.{
  ℕ, ◌+◌, ◌*◌, ◌-◌, ◌≤◌, ◌<◌, ◌≡◌, refl, ◌∙◌, List, [], ◌∷◌, map, arith, if◌then◌else◌,
}
use axionvera_network.Base.Int.{pos}
use axionvera_network.Base.I128.{
  i128_bound, checked_sub_pos, checked_mul_pos, checked_div_pos, checked_add_pos, wrapping_add_pos,
}
use axionvera_network.Vault.Errors.{VaultError}
use axionvera_network.Vault.Outcome.{ok, err}
use axionvera_network.Vault.State.{Address, VaultState, UserPosition, Storage}
use axionvera_network.Vault.Rewards.{
  precision_factor, checked_accrued_rewards, credit_accrued, accrue_position_rewards,
  accrue_asset_position_rewards,
}
use axionvera_network.Vault.Storage.{
  get_state, sum_locks, get_user_position_unchecked, get_liquid_balance_unchecked,
}
use axionvera_network.Vault.Ledger.{Account, TimeLock, Ledger, staked, locked, earned, settle}
use axionvera_network.Vault.Refinement.{
  Config, to_lock, position, vault_state, IsAccount, Represents, can_settle,
}

-- The state that every operation reads first.
pub get_state_lem :
    (s : Storage) (c : Config) (l : Ledger) → Represents s c l → get_state s ≡ ok (vault_state c l)
unfolding get_state
get_state_lem s c l r = ground arith

pub sum_locks_lem :
    (k : ℕ) (ls : List TimeLock)
    → k + locked ls < i128_bound
    → sum_locks (pos k) (map to_lock ls) ≡ pos (k + locked ls)
unfolding sum_locks
sum_locks_lem k [] h = ground arith
sum_locks_lem k (l ∷ ls) h =
    rw (wrapping_add_pos k l.amount (omega arith), sum_locks)
      (ground (arith, sum_locks_lem (k + l.amount) ls (omega arith)))

pub position_lem :
    (s : Storage) (u : Address) (a : Account)
    → IsAccount s u a
    → staked a < i128_bound
    → get_user_position_unchecked s u ≡ ok (position a)
unfolding get_user_position_unchecked
position_lem s u a r h =
    rw (r.liquid, r.locks, r.index, r.accrued, r.since, sum_locks_lem 0 a.locks (omega arith))
      (ground (arith, checked_add_pos a.liquid (0 + locked a.locks)))

pub liquid_lem :
    (s : Storage) (u : Address) (a : Account)
    → IsAccount s u a
    → get_liquid_balance_unchecked s u ≡ pos a.liquid
unfolding get_liquid_balance_unchecked
liquid_lem s u a r = r.liquid

-- For an account whose index is at most an i128 index and whose accrued rewards are an i128,
-- accrual gives the settled account where its arithmetic stays in range, and else `MathOverflow`.
pub accrue_asset_lem :
    (now index : ℕ) (a : Account)
    → a.index ≤ index
    → index < i128_bound
    → a.accrued < i128_bound
    → accrue_asset_position_rewards now (pos index) (position a) ≡ (
        if can_settle index a
        then ok (position (settle now index a))
        else err VaultError.math_overflow)
unfolding accrue_asset_position_rewards checked_accrued_rewards credit_accrued
accrue_asset_lem now index a h f k = ground (
  arith,
  checked_sub_pos index a.index h f,
  checked_mul_pos (staked a) (index - a.index),
  checked_div_pos (staked a * (index - a.index)) precision_factor (omega arith),
  checked_add_pos a.accrued (earned index a),
)

-- The vault's own index takes the same path.
pub accrue_position_rewards-eq-asset :
    (now : ℕ) (state : VaultState) (p : UserPosition)
    → accrue_position_rewards now state p ≡ accrue_asset_position_rewards now state.reward_index p
unfolding accrue_position_rewards accrue_asset_position_rewards
accrue_position_rewards-eq-asset now state p = refl

pub accrue_lem :
    (now : ℕ) (c : Config) (l : Ledger) (a : Account)
    → a.index ≤ l.index
    → l.index < i128_bound
    → a.accrued < i128_bound
    → accrue_position_rewards now (vault_state c l) (position a) ≡ (
        if can_settle l.index a
        then ok (position (settle now l.index a))
        else err VaultError.math_overflow)
accrue_lem now c l a h f k =
    accrue_position_rewards-eq-asset now (vault_state c l) (position a)
    ∙ accrue_asset_lem now l.index a h f k
