-- ===== src/Vault/Locks.antt =====
-- contracts/vault-contract/src/storage.rs: time locks. The loop of
-- `unlock_expired_locks` keeps the unlocked sum, the locks that stay and the count.
use axionvera_network.Base.{ℕ, ◌+◌, Bool, ◌&&◌, List, [], ◌∷◌, ◌++◌, leb, ltb, ◌==◌, if◌then◌else◌}
use axionvera_network.Base.Int.{ℤ, pos, ltb_ℤ}
use axionvera_network.Base.I128.{checked_add, checked_sub, checked_add_u64}
use axionvera_network.Vault.Errors.{
  ArithmeticError, BalanceError, from_arithmetic_error, from_balance_error,
}
use axionvera_network.Vault.Outcome
use axionvera_network.Vault.Outcome.{Outcome, ok, ok_or}
use axionvera_network.Vault.Action.{Action, ◌>>=◌, ◌>>◌, pure, lift, reads, gets, modify, raise_if}
use axionvera_network.Vault.State.{Address, Lock, Storage}
use axionvera_network.Vault.Rewards.{accrue_position_rewards}
use axionvera_network.Vault.Storage.{
  get_state, get_user_position_unchecked, set_user_position, get_liquid_balance_unchecked,
  set_liquid_balance, get_user_locks_unchecked, set_user_locks,
}

-- `lock.unlock_timestamp <= current_timestamp && processed_count < limit`
abbrev pub unlocks_now : ℕ → ℕ → ℕ → Lock → Bool
unlocks_now now limit processed lock = leb lock.unlock_timestamp now && ltb processed limit

unfoldable pub unlock_loop : ℕ → ℕ → ℤ → List Lock → ℕ → List Lock → Outcome (ℤ × List Lock)
unfolding from_arithmetic_error
unlock_loop now limit unlocked new_locks processed [] = ok (unlocked, new_locks)
unlock_loop now limit unlocked new_locks processed (lock ∷ locks) =
    let kept = unlock_loop now limit unlocked (new_locks ++ lock ∷ []) processed locks in
    if unlocks_now now limit processed lock
    then (Outcome.◌>>=◌
        (ok_or (checked_add unlocked lock.amount) (from_arithmetic_error ArithmeticError.overflow))
        (λ sum. unlock_loop now limit sum new_locks (processed + 1) locks))
    else kept

-- `if unlocked_amount > 0 { … }`: the sum goes to the liquid balance, and the rest is stored.
unfoldable pub store_unlocked : Address → ℤ → List Lock → Action Storage (Unit {0})
unfolding get_liquid_balance_unchecked set_liquid_balance set_user_locks from_arithmetic_error
store_unlocked user unlocked_amount new_locks = do
  liquid_balance ← gets (λ s. get_liquid_balance_unchecked s user)
  new_liquid_balance ← lift (
      ok_or (checked_add liquid_balance unlocked_amount)
        (from_arithmetic_error ArithmeticError.overflow))
  modify (set_liquid_balance user new_liquid_balance)
  modify (set_user_locks user new_locks)

unfoldable pub unlock_locks : ℕ → Address → ℕ → Action Storage ℤ
unfolding unlock_loop store_unlocked get_user_locks_unchecked
unlock_locks now user limit = do
  locks ← gets (λ s. get_user_locks_unchecked s user)
  (unlocked_amount, new_locks) ← lift (unlock_loop now limit (pos 0) [] 0 locks)
  if ltb_ℤ (pos 0) unlocked_amount then store_unlocked user unlocked_amount new_locks else pure tt
  pure unlocked_amount

unfoldable pub unlock_expired_locks : ℕ → Address → ℕ → Action Storage ℤ
unfolding unlock_locks
unlock_expired_locks now user limit =
    if limit == 0 then pure (pos 0) else unlock_locks now user limit

unfoldable pub store_lock : ℕ → Address → ℤ → ℕ → Action Storage (Unit {0})
unfolding get_state get_user_position_unchecked accrue_position_rewards set_user_position
    get_liquid_balance_unchecked set_liquid_balance get_user_locks_unchecked set_user_locks
    from_balance_error from_arithmetic_error
store_lock now user amount duration = do
  state ← reads get_state
  position ← reads (λ s. get_user_position_unchecked s user)
  accrued ← lift (accrue_position_rewards now state position)
  modify (set_user_position user accrued)
  liquid_balance ← gets (λ s. get_liquid_balance_unchecked s user)
  raise_if (ltb_ℤ liquid_balance amount) (from_balance_error BalanceError.insufficient_balance)
  new_liquid_balance ←
      lift
        (ok_or (checked_sub liquid_balance amount) (from_arithmetic_error ArithmeticError.overflow))
  modify (set_liquid_balance user new_liquid_balance)
  locks ← gets (λ s. get_user_locks_unchecked s user)
  unlock_timestamp ←
      lift (ok_or (checked_add_u64 now duration) (from_arithmetic_error ArithmeticError.overflow))
  modify (
      set_user_locks user (
        locks
        ++ record { amount = amount; unlock_timestamp = unlock_timestamp; reward_multiplier = 0 }
          ∷ []))
