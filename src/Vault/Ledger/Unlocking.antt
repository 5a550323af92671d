-- ===== src/Vault/Ledger/Unlocking.antt =====
-- Which locks a round of unlocking frees: the first `room` that have expired.
use axionvera_network.Base.{ℕ, zero, suc, ◌+◌, ◌≡◌, List, [], ◌∷◌, arith, leb, ltb, if◌then◌else◌}
use axionvera_network.Vault.Ledger.{Account, TimeLock, locked, staked, released}

-- The sum that is freed, and the locks that stay.
abbrev pub freed : ℕ → ℕ → List TimeLock → ℕ
freed now zero ls = 0
freed now (suc room) [] = 0
freed now (suc room) (l ∷ ls) =
    if leb l.unlock_timestamp now then l.amount + freed now room ls else freed now (suc room) ls

abbrev pub kept : ℕ → ℕ → List TimeLock → List TimeLock
kept now zero ls = ls
kept now (suc room) [] = []
kept now (suc room) (l ∷ ls) =
    if leb l.unlock_timestamp now then kept now room ls else l ∷ kept now (suc room) ls

-- Nothing is lost.
pub freed-kept :
    (now room : ℕ) (ls : List TimeLock) → freed now room ls + locked (kept now room ls) ≡ locked ls
freed-kept now zero ls = omega arith
freed-kept now (suc room) [] = omega arith
freed-kept now (suc room) (l ∷ ls) =
    ground (arith, freed-kept now room ls, freed-kept now (suc room) ls)

-- The account after unlocking: where nothing is freed, nothing is written.
abbrev pub unlocked : ℕ → ℕ → Account → Account
unlocked now room a =
    if ltb 0 (freed now room a.locks)
    then released (a.liquid + freed now room a.locks) (kept now room a.locks) a
    else a

pub staked-unlocked : (now room : ℕ) (a : Account) → staked (unlocked now room a) ≡ staked a
staked-unlocked now room a = ground (arith, freed-kept now room a.locks)

-- Only the division of the stake changes.
pub unlocked-released :
    (now room : ℕ) (a : Account)
    → unlocked now room a ≡ released (unlocked now room a).liquid (unlocked now room a).locks a
unlocked-released now room a = ground arith
